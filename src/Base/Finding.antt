-- ===== src/Base/Finding.antt =====
-- Laws of `find`, `starts_with` and `get_lines`.
use mathlib.Core.Path.{subst}
use ucla_bathroom_ratings.Base.{
  ◌==◌, Bool-cases, Option-cases, length, take, drop, Bytes, starts_with, find, prepend, get_lines,
  ℕ, zero, suc, ◌+◌, ◌≤◌, ◌≡◌, refl, ap, ◌∙◌, ◌≢◌, inl, inr, Bool, true, false, ◌&&◌, some, List,
  [], ◌∷◌, ◌++◌, arith,
}

pub starts_with-append_right :
    (p s x : Bytes) → length p ≤ length s → starts_with p (s ++ x) ≡ starts_with p s
unfolding starts_with
starts_with-append_right [] s x h = refl
starts_with-append_right (c ∷ p) [] x h = absurd (omega arith)
starts_with-append_right (c ∷ p) (d ∷ s) x h =
    ap (λ (b : Bool). c == d && b) (starts_with-append_right p s x (omega arith))

starts_with-length : (p s : Bytes) → starts_with p s ≡ true → length p ≤ length s
unfolding starts_with
starts_with-length [] s h = omega arith
starts_with-length (c ∷ p) [] h = absurd (ground arith)
starts_with-length (c ∷ p) (d ∷ s) h = let le = starts_with-length p s (ground arith) in omega arith

-- Where `find` finds: what stands before, the text itself, and what stands behind.
pub record Found (p s : Bytes) (n : ℕ) : Type 0 where
  pub fits : n + length p ≤ length s
  pub splits : s ≡ take n s ++ (p ++ drop (n + length p) s)
  pub stable : (x : Bytes) → find p (s ++ x) ≡ some n
  pub take_stable : (x : Bytes) → take n (s ++ x) ≡ take n s
  pub drop_stable : (x : Bytes) → drop (n + length p) (s ++ x) ≡ drop (n + length p) s ++ x

starts-splits : (p s : Bytes) → starts_with p s ≡ true → s ≡ p ++ drop (length p) s
unfolding starts_with
starts-splits [] s h = refl
starts-splits (c ∷ p) [] h = absurd (ground arith)
starts-splits (c ∷ p) (d ∷ s) h = ground (arith, starts-splits p s)

drop-append : (n : ℕ) (s x : Bytes) → n ≤ length s → drop n (s ++ x) ≡ drop n s ++ x
drop-append zero s x h = refl
drop-append (suc n) [] x h = absurd (omega arith)
drop-append (suc n) (c ∷ s) x h = drop-append n s x (omega arith)

find_at_zero : (p s : Bytes) → starts_with p s ≡ true → find p s ≡ some 0
unfolding find
find_at_zero p [] h = rw h
find_at_zero p (c ∷ s) h = rw h

Found-zero : (p s : Bytes) → starts_with p s ≡ true → Found p s 0
Found-zero p s h =
    let le = starts_with-length p s h in
    let z : zero + length p ≡ length p = omega arith in
    record {
      fits = omega arith;
      splits = rw z (starts-splits p s h);
      stable = λ x. find_at_zero p (s ++ x) (starts_with-append_right p s x le ∙ h);
      take_stable = λ x. refl;
      drop_stable = λ x. rw z (drop-append (length p) s x le);
    }

find_later :
    (p : Bytes) (c : ℕ) (s : Bytes) (n : ℕ)
    → starts_with p (c ∷ s) ≡ false
    → find p s ≡ some n
    → find p (c ∷ s) ≡ some (suc n)
unfolding find
find_later p c s n h e = rw (h, e)

Found-suc :
    (p : Bytes) (c : ℕ) (s : Bytes) (n : ℕ)
    → starts_with p (c ∷ s) ≡ false
    → Found p s n
    → Found p (c ∷ s) (suc n)
Found-suc p c s n h f =
    let le = f.fits in
    let z : suc n + length p ≡ suc (n + length p) = omega arith in
    record {
      fits = omega arith;
      splits = rw z (ap (◌∷◌ c) f.splits);
      stable = λ x.
          find_later p c (s ++ x) n (starts_with-append_right p (c ∷ s) x (omega arith) ∙ h)
            (f.stable x);
      take_stable = λ x. ap (◌∷◌ c) (f.take_stable x);
      drop_stable = λ x. rw z (f.drop_stable x);
    }

pub find-Found : (p s : Bytes) (n : ℕ) → find p s ≡ some n → Found p s n
unfolding find
find-Found p [] n e = elim (Bool-cases (starts_with p [])) [
  | inl here ↦ let z : 0 ≡ n = ground arith in subst (Found p []) z (Found-zero p [] here)
  | inr missing ↦ absurd (ground arith)
]
find-Found p (c ∷ s) n e = elim (Bool-cases (starts_with p (c ∷ s))) [
  | inl here ↦ let z : 0 ≡ n = ground arith in subst (Found p (c ∷ s)) z (Found-zero p (c ∷ s) here)
  | inr later ↦ elim (Option-cases (find p s)) [
    | inl missing ↦ absurd (ground arith)
    | inr (m, f) ↦
        let z : suc m ≡ n = ground arith in
        subst (Found p (c ∷ s)) z (Found-suc p c s m later (find-Found p s m f))
  ]
]

prepend-append : (c : ℕ) (ls ms : List Bytes) → ls ≢ [] → prepend c (ls ++ ms) ≡ prepend c ls ++ ms
prepend-append c [] ms h = absurd (h refl)
prepend-append c (l ∷ ls) ms h = refl

prepend-ne-nil : (c : ℕ) (ls : List Bytes) → prepend c ls ≢ []
prepend-ne-nil c [] = cc
prepend-ne-nil c (l ∷ ls) = cc

pub get_lines-ne-nil : (d c : ℕ) (s : Bytes) → get_lines d (c ∷ s) ≢ []
unfolding get_lines
get_lines-ne-nil d c s = elim (Bool-cases (c == d)) [
  | inl h ↦ rw h (cc)
  | inr h ↦ rw h (prepend-ne-nil c (get_lines d s))
]

pub get_lines-concat-ne-nil : (d : ℕ) (s : Bytes) (x : ℕ) → get_lines d (s ++ (x ∷ [])) ≢ []
get_lines-concat-ne-nil d [] x = get_lines-ne-nil d x []
get_lines-concat-ne-nil d (c ∷ s) x = get_lines-ne-nil d c (s ++ (x ∷ []))

-- The lines up to a delimiter, and those behind it.
pub get_lines-append :
    (d : ℕ) (s x : Bytes)
    → get_lines d (s ++ (d ∷ x)) ≡ get_lines d (s ++ (d ∷ [])) ++ get_lines d x
unfolding get_lines
get_lines-append d [] x = ground arith
get_lines-append d (c ∷ s) x =
    rw (get_lines-append d s x)
      (rw (prepend-append c _ (get_lines d x) (get_lines-concat-ne-nil d s d)) (ground arith))
