-- ===== src/Store/Validation.antt =====
-- `EntityStoreValidation` (src/entity_store_validation.cc), but for `IsValidJson`, which is
-- Store/Json.
use ucla_bathroom_ratings.Base.{
  leb, ◌==◌, if◌then◌else◌, all, Bytes, ℕ, ◌+◌, ◌-◌, ◌*◌, ◌%◌, Bool, false, not, ◌&&◌, ◌||◌, Option,
  none, some, [], ◌∷◌,
}
use mathlib.Core.Option
use ucla_bathroom_ratings.Base.Int.{ℤ, to_int32}

-- `isdigit` and `isalnum` in the "C" locale.
unfoldable pub is_digit : ℕ → Bool
is_digit c = leb b'0' c && leb c b'9'

unfoldable pub is_alnum : ℕ → Bool
unfolding is_digit
is_alnum c = is_digit c || (leb b'A' c && leb c b'Z') || (leb b'a' c && leb c b'z')

unfoldable pub is_name_char : ℕ → Bool
unfolding is_alnum
is_name_char c = is_alnum c || c == b'_' || c == b'-'

unfoldable pub is_valid_entity_name : Bytes → Bool
unfolding is_name_char
is_valid_entity_name [] = false
is_valid_entity_name (c ∷ s) = all is_name_char (c ∷ s)

-- The loop of `ParseId`. `result` is an `int`: its 32-bit pattern wraps around.
unfoldable pub parse_digits : ℕ → Bytes → Option ℕ
unfolding is_digit
parse_digits result [] = some result
parse_digits result (c ∷ s) =
    let later = parse_digits ((result * 10 + (c - b'0')) % 4294967296) s in
    if not (is_digit c) then none else later

unfoldable pub parse_id : Bytes → Option ℤ
unfolding parse_digits
parse_id [] = none
parse_id (c ∷ s) = Option.map to_int32 (parse_digits 0 (c ∷ s))
