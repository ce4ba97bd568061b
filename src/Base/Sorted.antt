-- ===== src/Base/Sorted.antt =====
-- Laws of `std::sort` on integers.
use mathlib.Core.List.Perm
use mathlib.Core.List.{Perm}
use ucla_bathroom_ratings.Base.{
  Bool-cases, All, ◌≡◌, refl, inl, inr, true, false, List, [], ◌∷◌, arith,
}
use ucla_bathroom_ratings.Base.Int.{ℤ, less_int, pos, negsuc}
use ucla_bathroom_ratings.Base.Sort.{insert_sorted, sort}

-- Each element is not above any that stands behind it.
abbrev pub IsSorted : List ℤ → Type 0
IsSorted [] = Unit
IsSorted (x ∷ xs) = All (λ y. less_int y x ≡ false) xs × IsSorted xs

insert_sorted-Perm : (x : ℤ) (ys : List ℤ) → Perm (x ∷ ys) (insert_sorted x ys)
unfolding insert_sorted
insert_sorted-Perm x [] = Perm.rfl
insert_sorted-Perm x (y ∷ ys) = elim (Bool-cases (less_int y x)) [
  | inl less ↦ rw less (Perm.trans (Perm.swap y x ys) (Perm.cons y (insert_sorted-Perm x ys)))
  | inr other ↦ rw other Perm.rfl
]

pub sort-Perm : (xs : List ℤ) → Perm xs (sort xs)
unfolding sort
sort-Perm [] = Perm.rfl
sort-Perm (x ∷ xs) = Perm.trans (Perm.cons x (sort-Perm xs)) (insert_sorted-Perm x (sort xs))

less_int_antisymm : (a b : ℤ) → less_int a b ≡ true → less_int b a ≡ false
unfolding less_int
less_int_antisymm (pos a) (pos b) h = ground arith
less_int_antisymm (pos a) (negsuc b) h = absurd (ground arith)
less_int_antisymm (negsuc a) (pos b) h = refl
less_int_antisymm (negsuc a) (negsuc b) h = ground arith

-- `a ≤ b` and `b ≤ c`.
less_int_trans : (a b c : ℤ) → less_int b a ≡ false → less_int c b ≡ false → less_int c a ≡ false
unfolding less_int
less_int_trans (pos a) (pos b) (pos c) h k = ground arith
less_int_trans (negsuc a) (negsuc b) (negsuc c) h k = ground arith
less_int_trans (pos a) (negsuc b) c h k = absurd (ground arith)
less_int_trans (pos a) (pos b) (negsuc c) h k = absurd (ground arith)
less_int_trans (negsuc a) (pos b) (negsuc c) h k = absurd (ground arith)
less_int_trans (negsuc a) (pos b) (pos c) h k = refl
less_int_trans (negsuc a) (negsuc b) (pos c) h k = refl

All-above :
    (x y : ℤ) (ys : List ℤ)
    → less_int y x ≡ false
    → All (λ z. less_int z y ≡ false) ys
    → All (λ z. less_int z x ≡ false) ys
All-above x y [] h hs = tt
All-above x y (z ∷ ys) h (k, ks) = (less_int_trans x y z h k, All-above x y ys h ks)

All-insert_sorted :
    (a x : ℤ) (ys : List ℤ)
    → less_int x a ≡ false
    → All (λ z. less_int z a ≡ false) ys
    → All (λ z. less_int z a ≡ false) (insert_sorted x ys)
unfolding insert_sorted
All-insert_sorted a x [] h hs = (h, tt)
All-insert_sorted a x (y ∷ ys) h (k, ks) = elim (Bool-cases (less_int y x)) [
  | inl less ↦ rw less (k, All-insert_sorted a x ys h ks)
  | inr other ↦ rw other (h, (k, ks))
]

insert_sorted-IsSorted : (x : ℤ) (ys : List ℤ) → IsSorted ys → IsSorted (insert_sorted x ys)
unfolding insert_sorted
insert_sorted-IsSorted x [] h = (tt, tt)
insert_sorted-IsSorted x (y ∷ ys) (h, hs) = elim (Bool-cases (less_int y x)) [
  | inl less ↦
      rw less
        (All-insert_sorted y x ys (less_int_antisymm y x less) h, insert_sorted-IsSorted x ys hs)
  | inr other ↦ rw other ((other, All-above x y ys other h), (h, hs))
]

pub sort-IsSorted : (xs : List ℤ) → IsSorted (sort xs)
unfolding sort
sort-IsSorted [] = tt
sort-IsSorted (x ∷ xs) = insert_sorted-IsSorted x (sort xs) (sort-IsSorted xs)
