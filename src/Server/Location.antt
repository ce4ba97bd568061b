-- ===== src/Server/Location.antt =====
-- `ExtractServerConfig` without the registration of handlers (src/server_main_utils.cc,
-- include/server_config.h).
use ucla_bathroom_ratings.Base.{
  ltb, leb, ◌==◌, if◌then◌else◌, Bytes, codes, same, trim_front, ℕ, ◌+◌, ◌-◌, ◌*◌, ◌%◌, Bool, ◌&&◌,
  ◌||◌, Option, none, some, List, [], ◌∷◌,
}
use ucla_bathroom_ratings.Base.Int.{ℤ, pos, negsuc}
use ucla_bathroom_ratings.Base.Map.{insert_name}
use ucla_bathroom_ratings.Config.Syntax.{
  NginxConfigStatement, NginxConfig, tokens, statements, simple, block,
}
use ucla_bathroom_ratings.Store.Validation.{is_digit}

pub record LocationConfig : Type 0 where
  pub path : Bytes
  pub handler_name : Bytes
  pub args : List (Bytes × Bytes)

pub record ServerConfig : Type 0 where
  pub port : ℤ
  pub locations : List LocationConfig

-- The number of a 16-bit pattern in two's complement.
unfoldable pub to_int16 : ℕ → ℤ
to_int16 n = if ltb n 32768 then pos n else negsuc (65535 - n)

-- The number of the digits at the front of a text.
unfoldable pub leading_digits : ℕ → Bytes → ℕ
unfolding is_digit
leading_digits result [] = result
leading_digits result (c ∷ s) =
    let later = leading_digits (result * 10 + (c - b'0')) s in if is_digit c then later else result

abbrev pub at_most : ℕ → ℕ → ℕ
at_most bound n = if leb n bound then n else bound

-- `atoi` converts to `int` what `strtol` gives, which stays between -2^63 and 2^63 - 1; the C
-- standard says nothing of what is no `int`. Here it is the 16-bit pattern of the number, for the
-- conversion to `short`.
unfoldable pub signed_digits : Bytes → ℕ
unfolding leading_digits
signed_digits [] = 0
signed_digits (c ∷ s) =
    if c == b'-'
    then (65536 - at_most 9223372036854775808 (leading_digits 0 s) % 65536) % 65536
    else if c == b'+'
    then at_most 9223372036854775807 (leading_digits 0 s) % 65536
    else at_most 9223372036854775807 (leading_digits 0 (c ∷ s)) % 65536

abbrev pub is_space_char : ℕ → Bool
is_space_char c = c == b' ' || (leb 9 c && leb c 13)

-- `server_config.port = atoi(text)`.
unfoldable pub port_of : Bytes → ℤ
unfolding signed_digits to_int16
port_of text = to_int16 (signed_digits (trim_front is_space_char text))

abbrev pub child : NginxConfigStatement → Option NginxConfig
child (simple ts) = none
child (block ts c) = some c

-- The directives of a location block: `handler` names the handler, all others are arguments.
unfoldable pub read_directive : List Bytes → LocationConfig → LocationConfig
read_directive (directive ∷ value ∷ more) l =
    if same directive (codes "handler")
    then record l { handler_name = value }
    else if same directive (codes "root")
    then record l { args = insert_name (codes "root") value l.args }
    else if same directive (codes "data_path")
    then record l { args = insert_name (codes "data_path") value l.args }
    else record l { args = insert_name directive value l.args }
read_directive _ l = l

unfoldable pub read_directives : List NginxConfigStatement → LocationConfig → LocationConfig
unfolding read_directive tokens
read_directives [] l = l
read_directives (s ∷ ss) l = read_directives ss (read_directive (tokens s) l)

unfoldable pub location_of : Bytes → NginxConfig → LocationConfig
unfolding read_directives
location_of path c =
    read_directives (statements c) (record { path = path; handler_name = []; args = [] })
