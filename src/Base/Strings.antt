-- ===== src/Base/Strings.antt =====
-- Byte strings, with the operations of `std::string` that the program uses.
use Prim.Native.Char.{code}
use Prim.Native.Nat.{ℕ, zero, suc}
use Prim.Native.String.{String}
use mathlib.Core.Path.{◌≡◌, refl}
use mathlib.Core.Logic.{◌↔◌}
use mathlib.Core.Bool.{Bool, true, false, ◌&&◌}
use mathlib.Core.List.{List, [], ◌∷◌, ◌++◌}
use mathlib.Core.Option
use mathlib.Core.Option.{Option, none, some}
use native.Mathlib.Omega.{arith}
use ucla_bathroom_ratings.Base.Tests.{◌==◌, if◌then◌else◌}

abbrev pub Bytes : Type 0
Bytes = List ℕ

-- The bytes of an ASCII literal.
abbrev pub codes : String → Bytes
codes String.[] = []
codes (String.◌∷◌ c s) = code c ∷ codes s

-- `a == b` on strings.
unfoldable pub same : Bytes → Bytes → Bool
same [] [] = true
same (x ∷ xs) (y ∷ ys) = x == y && same xs ys
same _ _ = false

pub same_iff : (a b : Bytes) → (same a b ≡ true) ↔ (a ≡ b)
unfolding same
same_iff (x ∷ a) (y ∷ b) = ground (arith, same_iff a b)
same_iff _ _ = ground arith

pub same_self : (a : Bytes) → same a a ≡ true
same_self a = (same_iff a a).1 refl

-- `p` is an initial part of `s`.
unfoldable pub starts_with : Bytes → Bytes → Bool
starts_with [] s = true
starts_with (x ∷ p) [] = false
starts_with (x ∷ p) (y ∷ s) = x == y && starts_with p s

-- `s.find(p)`: the first position of `p` in `s`, and `npos` as `none`.
unfoldable pub find : Bytes → Bytes → Option ℕ
unfolding starts_with
find p [] = if starts_with p [] then some 0 else none
find p (c ∷ s) = if starts_with p (c ∷ s) then some 0 else Option.map (λ n. suc n) (find p s)

-- `s.find(p) == 0`.
abbrev pub at_zero : Option ℕ → Bool
at_zero (some zero) = true
at_zero _ = false

-- `s.back() == c`, for a string that is not empty; false on the empty one.
unfoldable pub ends_in : ℕ → Bytes → Bool
ends_in c [] = false
ends_in c (x ∷ []) = x == c
ends_in c (x ∷ y ∷ s) = ends_in c (y ∷ s)

-- `s.pop_back()`.
unfoldable pub pop_back : Bytes → Bytes
pop_back [] = []
pop_back (x ∷ []) = []
pop_back (x ∷ y ∷ s) = x ∷ pop_back (y ∷ s)

-- The loop that erases bytes at the front while they pass the test.
unfoldable pub trim_front : (ℕ → Bool) → Bytes → Bytes
trim_front p [] = []
trim_front p (c ∷ s) = let later = trim_front p s in if p c then later else c ∷ s

abbrev pub is_nil : Bytes → Bool
is_nil [] = true
is_nil (c ∷ s) = false

-- The loop that pops such bytes off the back: a byte goes if all behind it have gone.
unfoldable pub trim_back : (ℕ → Bool) → Bytes → Bytes
trim_back p [] = []
trim_back p (c ∷ s) = let later = trim_back p s in if p c && is_nil later then [] else c ∷ later

-- `prepend c ls` puts a byte in front of the first line.
abbrev pub prepend : ℕ → List Bytes → List Bytes
prepend c [] = (c ∷ []) ∷ []
prepend c (l ∷ ls) = (c ∷ l) ∷ ls

-- The lines that `getline` with the delimiter `d` gives, one after another, until it fails.
unfoldable pub get_lines : ℕ → Bytes → List Bytes
get_lines d [] = []
get_lines d (c ∷ s) = let later = get_lines d s in if c == d then [] ∷ later else prepend c later

pub starts_with-append : (p s : Bytes) → starts_with p (p ++ s) ≡ true
unfolding starts_with
starts_with-append [] s = refl
starts_with-append (x ∷ p) s = ground (arith, starts_with-append p s)

pub starts_with-eq-true : (p s : Bytes) → starts_with p s ≡ true → (t : Bytes) × (s ≡ p ++ t)
unfolding starts_with
starts_with-eq-true [] s h = (s, refl)
starts_with-eq-true (x ∷ p) [] h = absurd (ground arith)
starts_with-eq-true (x ∷ p) (y ∷ s) h =
    let (t, e) = starts_with-eq-true p s (ground arith) in (t, ground arith)

-- `s.find(p) == 0` is the test for a prefix.
pub at_zero-find : (p s : Bytes) → at_zero (find p s) ≡ starts_with p s
unfolding find
at_zero-find p [] = ground arith
at_zero-find p (c ∷ s) = ground arith
