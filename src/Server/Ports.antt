-- ===== src/Server/Ports.antt =====
-- The port of a `listen` directive (src/server_main_utils.cc): `atoi`, converted to `short`.
use ucla_bathroom_ratings.Base.{
  ltb, ◌==◌, Bool-cases, All, Bytes, trim_front, ℕ, zero, suc, ◌+◌, ◌*◌, ◌/◌, ◌%◌, ◌≤◌, ◌<◌, ◌≡◌,
  refl, ap, ◌∙◌, inl, inr, true, false, [], ◌∷◌, ◌++◌, arith,
}
use ucla_bathroom_ratings.Base.Decimal.{decimal_loop, to_decimal, decimal_loop-All}
use ucla_bathroom_ratings.Store.Validation.{is_digit}
use ucla_bathroom_ratings.Server.Location.{
  to_int16, leading_digits, at_most, signed_digits, is_space_char, port_of,
}

abbrev IsDigit : ℕ → Type 0
IsDigit c = is_digit c ≡ true

numeral-IsDigit : (d : ℕ) → d < 10 → IsDigit (b'0' + d)
unfolding is_digit
numeral-IsDigit d h = ground arith

leading_digits-append :
    (s t : Bytes) (r : ℕ)
    → All IsDigit s
    → leading_digits r (s ++ t) ≡ leading_digits (leading_digits r s) t
unfolding leading_digits
leading_digits-append [] t r h = refl
leading_digits-append (c ∷ s) t r h = rw h.0 (leading_digits-append s t _ h.1)

one_digit : (r d : ℕ) → d < 10 → leading_digits r ((b'0' + d) ∷ []) ≡ r * 10 + d
unfolding leading_digits is_digit
one_digit r d h = ground arith

leading_digits-decimal_loop : (f n : ℕ) → n < f → leading_digits 0 (decimal_loop f n) ≡ n
unfolding decimal_loop
leading_digits-decimal_loop zero n h = absurd (omega arith)
leading_digits-decimal_loop (suc f) n h = elim (Bool-cases (ltb n 10)) [
  | inl small ↦ rw (small, decimal_loop) (one_digit 0 n (ground arith) ∙ omega arith)
  | inr large ↦
      let lt : 10 ≤ n = ground arith in
      rw (large, decimal_loop)
        (leading_digits-append (decimal_loop f (n / 10)) ((b'0' + n % 10) ∷ []) 0
            (decimal_loop-All IsDigit numeral-IsDigit f (n / 10))
          ∙ ap (λ x. leading_digits x ((b'0' + n % 10) ∷ []))
              (leading_digits-decimal_loop f (n / 10) (omega arith))
          ∙ one_digit (n / 10) (n % 10) (omega arith)
          ∙ omega arith)
]

-- A digit is no white space and no sign.
IsDigit-plain :
    (c : ℕ) → IsDigit c → (is_space_char c ≡ false) × ((c == b'-') ≡ false) × ((c == b'+') ≡ false)
unfolding is_digit
IsDigit-plain c h = (ground arith, ground arith, ground arith)

port_of-digits :
    (s : Bytes)
    → All IsDigit s
    → port_of s ≡ to_int16 (at_most 9223372036854775807 (leading_digits 0 s) % 65536)
unfolding port_of signed_digits trim_front leading_digits
port_of-digits [] h = refl
port_of-digits (c ∷ s) h =
    let (space, minus, plus) = IsDigit-plain c h.0 in
    rw (space, port_of, signed_digits, minus, plus)

at_most_within : (bound n : ℕ) → n ≤ bound → at_most bound n ≡ n
at_most_within bound n h = ground arith

-- The port that a `listen` directive with the decimal form of an `int` that is not negative gives
-- is that number modulo 2^16, as a signed 16-bit integer: no range is checked.
pub port_of-to_decimal : (n : ℕ) → n < 2147483648 → port_of (to_decimal n) ≡ to_int16 (n % 65536)
unfolding to_decimal
port_of-to_decimal n small =
    port_of-digits (decimal_loop (suc n) n) (decimal_loop-All IsDigit numeral-IsDigit (suc n) n)
    ∙ ap (λ x. to_int16 (at_most 9223372036854775807 x % 65536))
        (leading_digits-decimal_loop (suc n) n (omega arith))
    ∙ ap (λ x. to_int16 (x % 65536)) (at_most_within 9223372036854775807 n (omega arith))
