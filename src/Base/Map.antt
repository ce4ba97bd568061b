-- ===== src/Base/Map.antt =====
-- Maps with byte strings for keys (`std::map`, a directory): association lists.
use ucla_bathroom_ratings.Base.{
  if◌then◌else◌, Bool-cases, All, Bytes, same, same_iff, ◌≡◌, refl, inl, inr, false, Option, none,
  some, List, [], ◌∷◌, arith,
}

module _ {ℓ} {V : Type ℓ} where
  unfoldable pub lookup_name : Bytes → List (Bytes × V) → Option V
  lookup_name k [] = none
  lookup_name k ((j, v) ∷ m) = if same j k then some v else lookup_name k m

  unfoldable pub insert_name : Bytes → V → List (Bytes × V) → List (Bytes × V)
  insert_name k v [] = (k, v) ∷ []
  insert_name k v ((j, w) ∷ m) = if same j k then (j, v) ∷ m else (j, w) ∷ insert_name k v m

  unfoldable pub erase_name : Bytes → List (Bytes × V) → List (Bytes × V)
  erase_name k [] = []
  erase_name k ((j, w) ∷ m) = if same j k then m else (j, w) ∷ erase_name k m

module _ {ℓ} {V : Type ℓ} where
  pub lookup_name-insert_name :
      (k j : Bytes) (v : V) (m : List (Bytes × V))
      → lookup_name j (insert_name k v m) ≡ (if same k j then some v else lookup_name j m)
  unfolding lookup_name insert_name
  lookup_name-insert_name k j v [] = refl
  lookup_name-insert_name k j v ((i, w) ∷ m) =
      ground (arith, same_iff k j, same_iff i k, same_iff i j, lookup_name-insert_name k j v m)

  lookup_name-erase_ne :
      (k j : Bytes) (m : List (Bytes × V))
      → same k j ≡ false
      → lookup_name j (erase_name k m) ≡ lookup_name j m
  unfolding lookup_name erase_name
  lookup_name-erase_ne k j [] h = refl
  lookup_name-erase_ne k j ((i, w) ∷ m) h =
      ground (arith, same_iff k j, same_iff i k, same_iff i j, lookup_name-erase_ne k j m)

  -- No name stands twice.
  abbrev pub IsDistinct : List (Bytes × V) → Type 0
  IsDistinct [] = Unit
  IsDistinct ((k, v) ∷ m) = All (λ x. same x.0 k ≡ false) m × IsDistinct m

  pub absent :
      (k : Bytes) (m : List (Bytes × V)) → All (λ x. same x.0 k ≡ false) m → lookup_name k m ≡ none
  unfolding lookup_name
  absent k [] h = refl
  absent k ((j, v) ∷ m) (h, hs) = rw h (absent k m hs)

  lookup_name-erase_self :
      (k : Bytes) (m : List (Bytes × V)) → IsDistinct m → lookup_name k (erase_name k m) ≡ none
  unfolding lookup_name erase_name
  lookup_name-erase_self k [] h = refl
  lookup_name-erase_self k ((i, w) ∷ m) (h, hs) = elim (Bool-cases (same i k)) [
    | inl equal ↦ rw equal (absent k m (rw (← (same_iff i k).0 equal) h))
    | inr differs ↦ rw (differs, lookup_name) (rw differs (lookup_name-erase_self k m hs))
  ]

  pub lookup_name-erase_name :
      (k j : Bytes) (m : List (Bytes × V))
      → IsDistinct m
      → lookup_name j (erase_name k m) ≡ (if same k j then none else lookup_name j m)
  lookup_name-erase_name k j m h = elim (Bool-cases (same k j)) [
    | inl equal ↦ rw (equal, ← (same_iff k j).0 equal) (lookup_name-erase_self k m h)
    | inr differs ↦ rw differs (lookup_name-erase_ne k j m differs)
  ]

  -- What holds of every pair is kept.
  pub All-insert_name {κ} :
      (P : Bytes × V → Type κ) (k : Bytes) (v : V) (m : List (Bytes × V))
      → P (k, v)
      → All P m
      → All P (insert_name k v m)
  unfolding insert_name
  All-insert_name P k v [] h hs = (h, tt)
  All-insert_name P k v ((j, w) ∷ m) h (i, hs) = elim (Bool-cases (same j k)) [
    | inl equal ↦ rw (equal, (same_iff j k).0 equal) (h, hs)
    | inr differs ↦ rw differs (i, All-insert_name P k v m h hs)
  ]

  pub All-erase_name {κ} :
      (P : Bytes × V → Type κ) (k : Bytes) (m : List (Bytes × V)) → All P m → All P (erase_name k m)
  unfolding erase_name
  All-erase_name P k [] hs = tt
  All-erase_name P k ((j, w) ∷ m) (i, hs) = elim (Bool-cases (same j k)) [
    | inl equal ↦ rw equal hs
    | inr differs ↦ rw differs (i, All-erase_name P k m hs)
  ]

  pub insert_name-IsDistinct :
      (k : Bytes) (v : V) (m : List (Bytes × V)) → IsDistinct m → IsDistinct (insert_name k v m)
  unfolding insert_name
  insert_name-IsDistinct k v [] h = (tt, tt)
  insert_name-IsDistinct k v ((j, w) ∷ m) (h, hs) = elim (Bool-cases (same j k)) [
    | inl equal ↦ rw equal (h, hs)
    | inr differs ↦ rw differs (
      All-insert_name (λ x. same x.0 j ≡ false) k v m (ground (arith, same_iff k j, same_iff j k))
          h,
      insert_name-IsDistinct k v m hs,
    )
  ]

  pub erase_name-IsDistinct :
      (k : Bytes) (m : List (Bytes × V)) → IsDistinct m → IsDistinct (erase_name k m)
  unfolding erase_name
  erase_name-IsDistinct k [] h = tt
  erase_name-IsDistinct k ((j, w) ∷ m) (h, hs) = elim (Bool-cases (same j k)) [
    | inl equal ↦ rw equal hs
    | inr differs ↦
        rw differs (All-erase_name (λ x. same x.0 j ≡ false) k m h, erase_name-IsDistinct k m hs)
  ]
