-- ===== src/Store/Ascending.antt =====
-- Ascending lists of identifiers, as `List` of `EntityStorePersistent`
-- (src/entity_store_persistent.cc) sorts them.
use ucla_bathroom_ratings.Base.{
  Bool-cases, All, ◌≡◌, refl, sym, ap, ◌∙◌, ◌≢◌, inl, inr, true, false, ◌||◌, List, [], ◌∷◌, arith,
}
use ucla_bathroom_ratings.Base.Int.{ℤ, same_int, same_int_iff, same_int_self, less_int, pos, negsuc}
use ucla_bathroom_ratings.Base.Sort.{insert_sorted, sort}
use ucla_bathroom_ratings.Store.Persistent.{has_id}

-- No identifier stands twice.
abbrev pub Distinct : List ℤ → Type 0
Distinct [] = Unit
Distinct (k ∷ ids) = (has_id k ids ≡ false) × Distinct ids

-- Each identifier is below all that stand behind it.
abbrev pub Ascending : List ℤ → Type 0
Ascending [] = Unit
Ascending (k ∷ ids) = All (λ j. less_int k j ≡ true) ids × Ascending ids

less_int_irrefl : (a : ℤ) → less_int a a ≡ false
unfolding less_int
less_int_irrefl (pos n) = ground arith
less_int_irrefl (negsuc n) = ground arith

less_int_total : (a b : ℤ) → same_int a b ≡ false → less_int b a ≡ false → less_int a b ≡ true
unfolding less_int same_int
less_int_total (pos a) (pos b) h k = ground arith
less_int_total (pos a) (negsuc b) h k = ground arith
less_int_total (negsuc a) (pos b) h k = refl
less_int_total (negsuc a) (negsuc b) h k = ground arith

less_int_trans : (a b c : ℤ) → less_int a b ≡ true → less_int b c ≡ true → less_int a c ≡ true
unfolding less_int
less_int_trans (pos a) (pos b) (pos c) h k = ground arith
less_int_trans (negsuc a) (negsuc b) (negsuc c) h k = ground arith
less_int_trans (pos a) (negsuc b) c h k = absurd (ground arith)
less_int_trans (pos a) (pos b) (negsuc c) h k = absurd (ground arith)
less_int_trans (negsuc a) (pos b) (negsuc c) h k = absurd (ground arith)
less_int_trans (negsuc a) (pos b) (pos c) h k = refl
less_int_trans (negsuc a) (negsuc b) (pos c) h k = refl

All-less :
    (a b : ℤ) (ids : List ℤ)
    → less_int a b ≡ true
    → All (λ j. less_int b j ≡ true) ids
    → All (λ j. less_int a j ≡ true) ids
All-less a b [] h hs = tt
All-less a b (j ∷ ids) h (k, ks) = (less_int_trans a b j h k, All-less a b ids h ks)

All-insert :
    (a x : ℤ) (ids : List ℤ)
    → less_int a x ≡ true
    → All (λ j. less_int a j ≡ true) ids
    → All (λ j. less_int a j ≡ true) (insert_sorted x ids)
unfolding insert_sorted
All-insert a x [] h hs = (h, tt)
All-insert a x (j ∷ ids) h (k, ks) = elim (Bool-cases (less_int j x)) [
  | inl less ↦ rw less (k, All-insert a x ids h ks)
  | inr above_ ↦ rw above_ (h, (k, ks))
]

insert_sorted-Ascending :
    (x : ℤ) (ids : List ℤ) → has_id x ids ≡ false → Ascending ids → Ascending (insert_sorted x ids)
unfolding insert_sorted has_id
insert_sorted-Ascending x [] h a = (tt, tt)
insert_sorted-Ascending x (j ∷ ids) h (above, a) = elim (Bool-cases (less_int j x)) [
  | inl less ↦
      rw less (All-insert j x ids less above, insert_sorted-Ascending x ids (ground arith) a)
  | inr above_ ↦
      let differs : same_int x j ≡ false = ground (arith, same_int_iff x j, same_int_iff j x) in
      let below = less_int_total x j differs above_ in
      rw above_ ((below, All-less x j ids below above), (above, a))
]

has_id-insert_sorted :
    (k x : ℤ) (ids : List ℤ) → has_id k (insert_sorted x ids) ≡ (same_int x k || has_id k ids)
unfolding insert_sorted has_id
has_id-insert_sorted k x [] = refl
has_id-insert_sorted k x (j ∷ ids) = ground (arith, has_id-insert_sorted k x ids)

pub has_id-sort : (k : ℤ) (ids : List ℤ) → has_id k (sort ids) ≡ has_id k ids
unfolding sort has_id
has_id-sort k [] = refl
has_id-sort k (x ∷ ids) = ground (arith, has_id-insert_sorted k x (sort ids), has_id-sort k ids)

pub sort-Ascending : (ids : List ℤ) → Distinct ids → Ascending (sort ids)
unfolding sort
sort-Ascending [] h = tt
sort-Ascending (x ∷ ids) (h, hs) =
    insert_sorted-Ascending x (sort ids) (has_id-sort x ids ∙ h) (sort-Ascending ids hs)

not_above : (k : ℤ) (ids : List ℤ) → All (λ j. less_int k j ≡ true) ids → has_id k ids ≡ false
unfolding has_id
not_above k [] h = refl
not_above k (j ∷ ids) (h, hs) =
    ground (arith, not_above k ids hs, same_int_iff j k, less_int_irrefl k)

-- What is below the head is no member.
below_head :
    (x y : ℤ) (ys : List ℤ)
    → less_int x y ≡ true
    → All (λ j. less_int y j ≡ true) ys
    → has_id x (y ∷ ys) ≡ false
below_head x y ys h hs = not_above x (y ∷ ys) (h, All-less x y ys h hs)

member_head : (x : ℤ) (xs : List ℤ) → has_id x (x ∷ xs) ≡ true
unfolding has_id
member_head x xs = rw (same_int_self x) refl

true-ne-false : true ≢ false
true-ne-false e = cc

heads_equal :
    (x y : ℤ) (xs ys : List ℤ)
    → All (λ j. less_int x j ≡ true) xs
    → All (λ j. less_int y j ≡ true) ys
    → ((k : ℤ) → has_id k (x ∷ xs) ≡ has_id k (y ∷ ys))
    → x ≡ y
heads_equal x y xs ys above above' h = elim (Bool-cases (same_int x y)) [
  | inl equal ↦ (same_int_iff x y).0 equal
  | inr differs ↦ elim (Bool-cases (less_int y x)) [
    | inl less ↦
        absurd (true-ne-false (sym (member_head y ys) ∙ sym (h y) ∙ below_head y x xs less above))
    | inr not_less ↦
        let less = less_int_total x y differs not_less in
        absurd (true-ne-false (sym (member_head x xs) ∙ h x ∙ below_head x y ys less above'))
  ]
]

tails_same :
    (x : ℤ) (xs ys : List ℤ)
    → All (λ j. less_int x j ≡ true) xs
    → All (λ j. less_int x j ≡ true) ys
    → ((k : ℤ) → has_id k (x ∷ xs) ≡ has_id k (x ∷ ys))
    → (k : ℤ) → has_id k xs ≡ has_id k ys
unfolding has_id
tails_same x xs ys above above' h k = elim (Bool-cases (same_int x k)) [
  | inr differs ↦ let both = h k in ground arith
  | inl equal ↦
      rw (← (same_int_iff x k).0 equal) (not_above x xs above ∙ sym (not_above x ys above'))
]

-- An ascending list is known by its members.
pub Ascending-unique :
    (xs ys : List ℤ) → Ascending xs → Ascending ys → ((k : ℤ) → has_id k xs ≡ has_id k ys) → xs ≡ ys
unfolding has_id
Ascending-unique [] [] a b h = refl
Ascending-unique [] (y ∷ ys) a b h = absurd (true-ne-false (sym (member_head y ys) ∙ sym (h y)))
Ascending-unique (x ∷ xs) [] a b h = absurd (true-ne-false (sym (member_head x xs) ∙ h x))
Ascending-unique (x ∷ xs) (y ∷ ys) (above, a) (above', b) h =
    let e = heads_equal x y xs ys above above' h in
    let above'' = rw (← e) at above' in
    let h' = rw (← e) at h in
    rw (← e) (
      ap (λ (zs : List ℤ). x ∷ zs)
        (Ascending-unique xs ys a b (tails_same x xs ys above above'' h')))
