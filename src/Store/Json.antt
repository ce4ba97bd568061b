-- ===== src/Store/Json.antt =====
-- `EntityStoreValidation::IsValidJson` (src/entity_store_validation.cc), over what Boost.JSON says.
use ucla_bathroom_ratings.Base.{Bytes, Bool, not}

-- Whether `boost::json::parse` leaves no error code, for the function that tells whether it sets
-- one.
abbrev pub is_valid_json : (Bytes → Bool) → Bytes → Bool
is_valid_json sets_error body = not (sets_error body)
