-- ===== src/Store/Objects.antt =====
-- Laws of the maps of `EntityStoreInMemory` (src/entity_store_in_memory.cc), and of its search for
-- a free identifier.
use mathlib.Core.List.{Mem, not-mem-nil, mem-cons}
use mathlib.Core.Logic.Or
use mathlib.Core.Bool.{Bool-set}
use ucla_bathroom_ratings.Base.{
  ltb, ◌==◌, if◌then◌else◌, Bool-cases, length, Bytes, same, same_iff, ℕ, zero, suc, ◌+◌, ◌≤◌, ◌<◌,
  ◌≡◌, refl, sym, ◌∙◌, ◌↔◌, inl, inr, true, false, ◌||◌, none, some, [], ◌∷◌, arith,
}
use ucla_bathroom_ratings.Base.Int.{ℤ, same_int, same_int_iff, pos, negsuc}
use ucla_bathroom_ratings.Store.InMemory.{
  Objects, Entities, find_object, set_object, erase_object, count_object, ids_of, objects_of,
  set_objects, next_free,
}

-- No identifier stands twice.
abbrev pub IsDistinct : Objects → Type 0
IsDistinct [] = Unit
IsDistinct ((k, v) ∷ m) = (find_object k m ≡ none) × IsDistinct m

pub find_object-set_object :
    (id j : ℤ) (d : Bytes) (m : Objects)
    → find_object j (set_object id d m) ≡ (if same_int id j then some d else find_object j m)
unfolding find_object set_object
find_object-set_object id j d [] = refl
find_object-set_object id j d ((k, v) ∷ m) =
    ground (
      arith,
      same_int_iff id j,
      same_int_iff k id,
      same_int_iff k j,
      find_object-set_object id j d m,
    )

pub set_object-IsDistinct :
    (id : ℤ) (d : Bytes) (m : Objects) → IsDistinct m → IsDistinct (set_object id d m)
unfolding set_object
set_object-IsDistinct id d [] h = ((unfold find_object in refl), tt)
set_object-IsDistinct id d ((k, v) ∷ m) (h, hs) = elim (Bool-cases (same_int k id)) [
  | inl same_ ↦ rw same_ (h, hs)
  | inr other ↦ rw other (
    find_object-set_object id k d m ∙ ground (arith, same_int_iff id k, same_int_iff k id),
    set_object-IsDistinct id d m hs,
  )
]

find_object-erase_ne :
    (id j : ℤ) (m : Objects)
    → same_int id j ≡ false
    → find_object j (erase_object id m) ≡ find_object j m
unfolding find_object erase_object
find_object-erase_ne id j [] h = refl
find_object-erase_ne id j ((k, v) ∷ m) h =
    ground
      (arith, same_int_iff id j, same_int_iff k id, same_int_iff k j, find_object-erase_ne id j m)

find_object-erase_self :
    (id : ℤ) (m : Objects) → IsDistinct m → find_object id (erase_object id m) ≡ none
unfolding find_object erase_object
find_object-erase_self id [] h = refl
find_object-erase_self id ((k, v) ∷ m) (h, hs) =
    ground (arith, same_int_iff k id, find_object-erase_self id m hs)

pub find_object-erase_object :
    (id j : ℤ) (m : Objects)
    → IsDistinct m
    → find_object j (erase_object id m) ≡ (if same_int id j then none else find_object j m)
find_object-erase_object id j m h = elim (Bool-cases (same_int id j)) [
  | inl same_ ↦ rw (same_, ← (same_int_iff id j).0 same_) (find_object-erase_self id m h)
  | inr other ↦ rw other (find_object-erase_ne id j m other)
]

pub erase_object-IsDistinct : (id : ℤ) (m : Objects) → IsDistinct m → IsDistinct (erase_object id m)
unfolding erase_object
erase_object-IsDistinct id [] h = tt
erase_object-IsDistinct id ((k, v) ∷ m) (h, hs) = elim (Bool-cases (same_int k id)) [
  | inl same_ ↦ rw same_ hs
  | inr other ↦ rw other (
    find_object-erase_ne id k m (ground (arith, same_int_iff id k, same_int_iff k id)) ∙ h,
    erase_object-IsDistinct id m hs,
  )
]

pub objects_of-set_objects :
    (e j : Bytes) (m : Objects) (es : Entities)
    → objects_of j (set_objects e m es) ≡ (if same e j then m else objects_of j es)
unfolding objects_of set_objects
objects_of-set_objects e j m [] = refl
objects_of-set_objects e j m ((k, n) ∷ es) =
    ground (arith, same_iff e j, same_iff k e, same_iff k j, objects_of-set_objects e j m es)

-- How many identifiers are `n` or more: the measure of the search.
above : ℕ → Objects → ℕ
above n [] = 0
above n ((pos k, v) ∷ m) = if ltb k n then above n m else suc (above n m)
above n ((negsuc k, v) ∷ m) = above n m

above-le : (n : ℕ) (m : Objects) → above n m ≤ length m
unfolding above
above-le n [] = omega arith
above-le n ((pos k, v) ∷ m) = ground (arith, above-le n m)
above-le n ((negsuc k, v) ∷ m) = omega (arith, above-le n m)

above-suc-le : (n : ℕ) (m : Objects) → above (suc n) m ≤ above n m
unfolding above
above-suc-le n [] = omega arith
above-suc-le n ((pos k, v) ∷ m) = ground (arith, above-suc-le n m)
above-suc-le n ((negsuc k, v) ∷ m) = above-suc-le n m

above-suc-lt : (n : ℕ) (m : Objects) → count_object (pos n) m ≡ true → above (suc n) m < above n m
unfolding above count_object same_int
above-suc-lt n [] h = absurd (ground arith)
above-suc-lt n ((pos k, v) ∷ m) h = ground (arith, above-suc-le n m, above-suc-lt n m)
above-suc-lt n ((negsuc k, v) ∷ m) h = above-suc-lt n m h

-- What the search finds: the first number from `n` on that is no identifier.
pub record FirstFree (m : Objects) (n k : ℕ) : Type 0 where
  pub from : n ≤ k
  pub free : find_object (pos k) m ≡ none
  pub taken : (j : ℕ) → n ≤ j → j < k → count_object (pos j) m ≡ true

count_object-false : (id : ℤ) (m : Objects) → count_object id m ≡ false → find_object id m ≡ none
unfolding count_object
count_object-false id m h = ground arith

FirstFree-here : (m : Objects) (n : ℕ) → count_object (pos n) m ≡ false → FirstFree m n n
FirstFree-here m n h = record {
  from = omega arith;
  free = count_object-false (pos n) m h;
  taken = λ j a b. absurd (omega arith);
}

taken_from :
    (m : Objects) (n j : ℕ)
    → count_object (pos n) m ≡ true
    → (suc n ≤ j → count_object (pos j) m ≡ true)
    → n ≤ j
    → count_object (pos j) m ≡ true
taken_from m n j h later le = elim (Bool-cases (n == j)) [
  | inl same_ ↦ let e : n ≡ j = ground arith in rw (← e) h
  | inr other ↦ later (ground arith)
]

FirstFree-later :
    (m : Objects) (n k : ℕ)
    → count_object (pos n) m ≡ true
    → FirstFree m (suc n) k
    → FirstFree m n k
FirstFree-later m n k h f = record {
  from = let le = f.from in omega arith;
  free = f.free;
  taken = λ j a b. taken_from m n j h (λ c. f.taken j c b) a;
}

-- The fuel is enough if it is more than the number of identifiers from `n` on.
next_free-FirstFree :
    (fuel : ℕ) (m : Objects) (n : ℕ)
    → above n m < fuel
    → (k : ℕ) × (next_free fuel m n ≡ some k) × FirstFree m n k × (k ≤ n + above n m)
unfolding next_free
next_free-FirstFree zero m n h = absurd (omega arith)
next_free-FirstFree (suc fuel) m n h = elim (Bool-cases (count_object (pos n) m)) [
  | inr free ↦ (n, rw (free, next_free), FirstFree-here m n free, omega arith)
  | inl used ↦
      let lt = above-suc-lt n m used in
      let (k, e, f, le) = next_free-FirstFree fuel m (suc n) (omega arith) in
      (k, rw (used, next_free) e, FirstFree-later m n k used f, omega arith)
]

-- The fuel that `Create` gives, or more.
pub next_free_enough :
    (fuel : ℕ) (m : Objects) (n : ℕ)
    → length m < fuel
    → (k : ℕ) × (next_free fuel m n ≡ some k) × FirstFree m n k × (k ≤ n + length m)
next_free_enough fuel m n h =
    let le = above-le n m in
    let (k, e, f, bound) = next_free-FirstFree fuel m n (omega arith) in (k, e, f, omega arith)

pub next_free_total :
    (m : Objects) (n : ℕ) → (k : ℕ) × (next_free (suc (length m)) m n ≡ some k) × FirstFree m n k
next_free_total m n =
    let (k, e, f, bound) = next_free_enough (suc (length m)) m n (omega arith) in (k, e, f)

count_object-cons :
    (id k : ℤ) (v : Bytes) (m : Objects)
    → count_object id ((k, v) ∷ m) ≡ (same_int k id || count_object id m)
unfolding count_object find_object
count_object-cons id k v m = ground arith

-- The listed identifiers are those that are found.
pub mem-ids_of : (id : ℤ) (m : Objects) → Mem id (ids_of m) ↔ (count_object id m ≡ true)
mem-ids_of id [] =
    (λ h. absurd (not-mem-nil h), λ h. absurd (unfold count_object find_object in ground arith))
mem-ids_of id ((k, v) ∷ m) =
    let (to, from) = mem-ids_of id m in
    let e = count_object-cons id k v m in
    (
      λ h.
          e
          ∙ Or.elim (Bool-set _ _) (mem-cons.0 h)
              (λ (p : id ≡ k). ground (arith, same_int_iff k id))
              (λ (q : Mem id (ids_of m)). ground (arith, to q)),
      λ h. elim (Bool-cases (same_int k id)) [
        | inl same_ ↦ mem-cons.1 (Or.inl (sym ((same_int_iff k id).0 same_)))
        | inr other ↦ mem-cons.1 (Or.inr (from (ground arith)))
      ],
    )
