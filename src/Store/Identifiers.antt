-- ===== src/Store/Identifiers.antt =====
-- `ParseId` (src/entity_store_validation.cc) on what `std::to_string` prints, and the characters of
-- a valid entity name.
use mathlib.Core.Option
use mathlib.Core.List.{concat-ne-nil}
use mathlib.Core.Path.{subst}
use ucla_bathroom_ratings.Base.{
  ltb, Bool-cases, Option-cases, all, All, Bytes, ℕ, zero, suc, ◌+◌, ◌-◌, ◌*◌, ◌/◌, ◌%◌, ◌≤◌, ◌<◌,
  ◌≡◌, refl, ap, ◌∙◌, ◌≢◌, inl, inr, true, none, some, [], ◌∷◌, ◌++◌, arith,
}
use ucla_bathroom_ratings.Base.Int.{ℤ, to_int32, IsInt32, pos}
use ucla_bathroom_ratings.Base.Decimal.{decimal_loop, to_decimal, int_to_string}
use ucla_bathroom_ratings.Store.Validation.{
  is_digit, is_name_char, is_valid_entity_name, parse_digits, parse_id,
}

abbrev pub int_mod : ℕ
int_mod = 4294967296

none-ne-some : {A : Type 0} {a : A} → none ≢ some a
none-ne-some e = cc

parse_digits-append :
    (s t : Bytes) (r q : ℕ) → parse_digits r s ≡ some q → parse_digits r (s ++ t) ≡ parse_digits q t
unfolding parse_digits
parse_digits-append [] t r q e = let same_ : r ≡ q = cc in ap (λ (x : ℕ). parse_digits x t) same_
parse_digits-append (c ∷ s) t r q e = elim (Bool-cases (is_digit c)) [
  | inl digit ↦ rw digit (parse_digits-append s t _ q (rw digit at e))
  | inr other ↦ absurd (none-ne-some (rw other at e))
]

one_digit : (r d : ℕ) → d < 10 → parse_digits r ((b'0' + d) ∷ []) ≡ some ((r * 10 + d) % int_mod)
unfolding parse_digits
one_digit r d h = ground arith

parse_digits-decimal_loop :
    (f n : ℕ) → n < f → parse_digits 0 (decimal_loop f n) ≡ some (n % int_mod)
unfolding decimal_loop
parse_digits-decimal_loop zero n h = absurd (omega arith)
parse_digits-decimal_loop (suc f) n h = elim (Bool-cases (ltb n 10)) [
  | inl small ↦ rw (small, decimal_loop) (one_digit 0 n (ground arith) ∙ ap some (omega arith))
  | inr large ↦
      let lt : 10 ≤ n = ground arith in
      rw (large, decimal_loop)
        (parse_digits-append (decimal_loop f (n / 10)) ((b'0' + n % 10) ∷ []) 0 ((n / 10) % int_mod)
            (parse_digits-decimal_loop f (n / 10) (omega arith))
          ∙ one_digit ((n / 10) % int_mod) (n % 10) (omega arith)
          ∙ ap some (omega arith))
]

pub decimal_loop-ne-nil : (f n : ℕ) → n < f → decimal_loop f n ≢ []
unfolding decimal_loop
decimal_loop-ne-nil zero n h = absurd (omega arith)
decimal_loop-ne-nil (suc f) n h = elim (Bool-cases (ltb n 10)) [
  | inl small ↦ rw (small, decimal_loop) (cc)
  | inr large ↦ rw (large, decimal_loop) (concat-ne-nil _ _)
]

parse_id_of_ne :
    (s : Bytes) (n : ℕ) → s ≢ [] → parse_digits 0 s ≡ some n → parse_id s ≡ some (to_int32 n)
unfolding parse_id
parse_id_of_ne [] n h e = absurd (h refl)
parse_id_of_ne (c ∷ s) n h e = rw (e, Option.map)

-- `ParseId` reads the decimal form of a number as that number modulo 2^32, as a signed 32-bit
-- integer.
pub parse_id-to_decimal : (n : ℕ) → parse_id (to_decimal n) ≡ some (to_int32 (n % 4294967296))
unfolding to_decimal
parse_id-to_decimal n =
    parse_id_of_ne (decimal_loop (suc n) n) (n % int_mod)
      (decimal_loop-ne-nil (suc n) n (omega arith))
      (parse_digits-decimal_loop (suc n) n (omega arith))

small_int32 : (n : ℕ) → n < 2147483648 → to_int32 (n % 4294967296) ≡ pos n
unfolding to_int32
small_int32 n h = ground arith

-- An identifier below 2^31 is read back from its decimal form.
pub parse_id-int_to_string :
    (n : ℕ) → n < 2147483648 → parse_id (int_to_string (pos n)) ≡ some (pos n)
unfolding int_to_string
parse_id-int_to_string n h = parse_id-to_decimal n ∙ ap some (small_int32 n h)

parse_digits-small :
    (s : Bytes) (r n : ℕ) → r < 4294967296 → parse_digits r s ≡ some n → n < 4294967296
unfolding parse_digits
parse_digits-small [] r n h e = ground arith
parse_digits-small (c ∷ s) r n h e =
    ground (arith, parse_digits-small s ((r * 10 + (c - b'0')) % 4294967296) n (omega arith))

to_int32-IsInt32 : (n : ℕ) → n < 4294967296 → IsInt32 (to_int32 n)
unfolding to_int32
to_int32-IsInt32 n h = elim (Bool-cases (ltb n 2147483648)) [
  | inl small ↦ rw small (ground arith)
  | inr large ↦ rw large (ground arith)
]

some-injective : {A : Type 0} (a b : A) → some a ≡ some b → a ≡ b
some-injective a b h = cc

-- What `ParseId` reads is a number that an `int` can hold.
pub parse_id-IsInt32 : (s : Bytes) (id : ℤ) → parse_id s ≡ some id → IsInt32 id
unfolding parse_id
parse_id-IsInt32 [] id h = absurd (cc)
parse_id-IsInt32 (c ∷ s) id h = elim (Option-cases (parse_digits 0 (c ∷ s))) [
  | inl none_ ↦ absurd (none-ne-some (rw none_ at h))
  | inr (n, e) ↦
      subst IsInt32 (some-injective (to_int32 n) id (rw e at h))
        (to_int32-IsInt32 n (parse_digits-small (c ∷ s) 0 n (omega arith) e))
]

-- A byte that cannot end or leave a path component.
abbrev pub IsPlainByte : ℕ → Type 0
IsPlainByte c = (c ≢ b'/') × (c ≢ b'.') × (c ≢ b'?') × (0 < c) × (c < 128)

is_name_char-IsPlainByte : (c : ℕ) → is_name_char c ≡ true → IsPlainByte c
unfolding is_name_char
is_name_char-IsPlainByte c h = ground arith

all_name_chars : (s : Bytes) → all is_name_char s ≡ true → All IsPlainByte s
all_name_chars [] h = tt
all_name_chars (c ∷ s) h =
    (is_name_char-IsPlainByte c (ground arith), all_name_chars s (ground arith))

-- A valid entity name is one path component: it is not empty, and holds no slash, no dot, no
-- question mark, no zero byte and no byte above 127.
pub is_valid_entity_name-IsPlainByte :
    (e : Bytes) → is_valid_entity_name e ≡ true → (e ≢ []) × All IsPlainByte e
unfolding is_valid_entity_name
is_valid_entity_name-IsPlainByte [] h = absurd (ground arith)
is_valid_entity_name-IsPlainByte (c ∷ s) h = (cc, all_name_chars (c ∷ s) h)
