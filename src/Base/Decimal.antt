-- ===== src/Base/Decimal.antt =====
-- `std::to_string`: numbers in decimal.
use ucla_bathroom_ratings.Base.{
  ltb, Bool-cases, All, All-append, Bytes, ℕ, zero, suc, ◌+◌, ◌/◌, ◌%◌, ◌<◌, inl, inr, true, false,
  [], ◌∷◌, ◌++◌, arith,
}
use ucla_bathroom_ratings.Base.Int.{ℤ, pos, negsuc}

-- The digits of `n`; the fuel `suc n` is enough, since each round divides by ten.
unfoldable pub decimal_loop : ℕ → ℕ → Bytes
decimal_loop zero n = []
decimal_loop (suc f) n = elim (ltb n 10) [
  | true ↦ (b'0' + n) ∷ []
  | false ↦ decimal_loop f (n / 10) ++ ((b'0' + n % 10) ∷ [])
]

unfoldable pub to_decimal : ℕ → Bytes
unfolding decimal_loop
to_decimal n = decimal_loop (suc n) n

unfoldable pub int_to_string : ℤ → Bytes
unfolding to_decimal
int_to_string (pos n) = to_decimal n
int_to_string (negsuc n) = b'-' ∷ to_decimal (suc n)

-- A property of the ten digits holds of each byte that is written.
pub decimal_loop-All :
    (P : ℕ → Type 0) → ((d : ℕ) → d < 10 → P (b'0' + d)) → (f n : ℕ) → All P (decimal_loop f n)
unfolding decimal_loop
decimal_loop-All P h zero n = tt
decimal_loop-All P h (suc f) n = elim (Bool-cases (ltb n 10)) [
  | inl small ↦ rw (small, decimal_loop) (h n (ground arith), tt)
  | inr large ↦
      rw (large, decimal_loop)
        (All-append P (decimal_loop f (n / 10)) ((b'0' + n % 10) ∷ [])
          (decimal_loop-All P h f (n / 10)) (h (n % 10) (omega arith), tt))
]
