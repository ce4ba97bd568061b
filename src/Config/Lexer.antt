-- ===== src/Config/Lexer.antt =====
-- `ParseToken` and its character tests (src/config_parser.cc). The stream is the list of the bytes
-- not yet read; `get` at its end yields the byte 255 (`EOF` cast to `char`).
use ucla_bathroom_ratings.Base.{◌==◌, if◌then◌else◌, Bytes, codes, ℕ, Bool, ◌||◌, [], ◌∷◌, ◌++◌}

pub data TokenType : Type 0 where
  start normal start_block end_block comment statement_end eof error quoted_string : TokenType

-- `TokenTypeAsString`, for the log.
unfoldable pub token_type_as_string : TokenType → Bytes
token_type_as_string start = codes "TOKEN_TYPE_START"
token_type_as_string normal = codes "TOKEN_TYPE_NORMAL"
token_type_as_string start_block = codes "TOKEN_TYPE_START_BLOCK"
token_type_as_string end_block = codes "TOKEN_TYPE_END_BLOCK"
token_type_as_string comment = codes "TOKEN_TYPE_COMMENT"
token_type_as_string statement_end = codes "TOKEN_TYPE_STATEMENT_END"
token_type_as_string eof = codes "TOKEN_TYPE_EOF"
token_type_as_string error = codes "TOKEN_TYPE_ERROR"
token_type_as_string quoted_string = codes "TOKEN_TYPE_QUOTED_STRING"

unfoldable pub is_token_delimiter : ℕ → Bool
is_token_delimiter c = c == b' ' || c == b'\t' || c == b'\n' || c == b';' || c == b'{' || c == b'}'

unfoldable pub is_whitespace : ℕ → Bool
is_whitespace c = c == b' ' || c == b'\t' || c == b'\n' || c == b'\r'

-- What `ParseToken` returns, its out-parameter, and the stream behind it.
pub record Lexed : Type 0 where
  pub type : TokenType
  pub value : Bytes
  pub rest : Bytes

abbrev pub lexed : TokenType → Bytes → Bytes → Lexed
lexed t v r = record { type = t; value = v; rest = r }

-- `TOKEN_STATE_SINGLE_QUOTE` and `TOKEN_STATE_DOUBLE_QUOTE`, for the quote `q`. At the last byte
-- of the stream a backslash takes `EOF` along, and a closing quote is followed by `EOF`.
unfoldable pub lex_quoted : ℕ → Bytes → Bytes → Lexed
lex_quoted q value [] = lexed error value []
lex_quoted q value (c ∷ []) =
    lexed error (if c == b'\\' then value ++ (c ∷ 255 ∷ []) else value ++ (c ∷ [])) []
lex_quoted q value (c ∷ next ∷ s) =
    let escaped = lex_quoted q (value ++ (c ∷ next ∷ [])) s in
    let longer = lex_quoted q (value ++ (c ∷ [])) (next ∷ s) in
    if c == b'\\'
    then escaped
    else if c == q
    then if is_token_delimiter next
      then lexed normal (value ++ (c ∷ [])) (next ∷ s)
      else lexed error (value ++ (c ∷ [])) s
    else longer

-- `TOKEN_STATE_TOKEN_TYPE_COMMENT`.
unfoldable pub lex_comment : Bytes → Bytes → Lexed
lex_comment value [] = lexed eof value []
lex_comment value (c ∷ s) =
    let longer = lex_comment (value ++ (c ∷ [])) s in
    if c == b'\n' || c == b'\r' then lexed comment value s else longer

-- `TOKEN_STATE_TOKEN_TYPE_NORMAL`. The delimiter is put back.
unfoldable pub lex_normal : Bytes → Bytes → Lexed
lex_normal value [] = lexed eof value []
lex_normal value (c ∷ s) =
    let longer = lex_normal (value ++ (c ∷ [])) s in
    if is_token_delimiter c then lexed normal value (c ∷ s) else longer

-- `TOKEN_STATE_INITIAL_WHITESPACE` at a byte that is not white space.
unfoldable pub lex_first : ℕ → Bytes → Lexed
lex_first c s =
    if c == b'{'
    then lexed start_block (c ∷ []) s
    else if c == b'}'
    then lexed end_block (c ∷ []) s
    else if c == b'#'
    then lex_comment (c ∷ []) s
    else if c == b'"'
    then lex_quoted b'"' (c ∷ []) s
    else if c == b'\''
    then lex_quoted b'\'' (c ∷ []) s
    else if c == b';'
    then lexed statement_end (c ∷ []) s
    else lex_normal (c ∷ []) s

unfoldable pub parse_token : Bytes → Lexed
parse_token [] = lexed eof [] []
parse_token (c ∷ s) = let later = parse_token s in if is_whitespace c then later else lex_first c s
