-- ===== src/Http/RequestParser.antt =====
-- `RequestParser` (src/request_parser.cc).
use ucla_bathroom_ratings.Base.{
  ltb, leb, ◌==◌, if◌then◌else◌, length, is_empty, take, drop, Bytes, codes, same, find, ends_in,
  pop_back, trim_front, trim_back, get_lines, ℕ, suc, ◌+◌, Bool, true, false, not, ◌&&◌, ◌||◌, none,
  some, List, [], ◌∷◌, ◌++◌,
}
use ucla_bathroom_ratings.Http.Message.{Request}

-- `if (!line.empty() && line.back() == '\r') line.pop_back();`
unfoldable pub strip_return : Bytes → Bytes
strip_return line = if ends_in b'\r' line then pop_back line else line

-- `isspace`, which bounds the words of `stream >> word`.
unfoldable pub is_space : ℕ → Bool
is_space c = c == b' ' || (leb 9 c && leb c 13)

unfoldable pub skip_space : Bytes → Bytes
skip_space [] = []
skip_space (c ∷ s) = let later = skip_space s in if is_space c then later else c ∷ s

unfoldable pub take_word : Bytes → Bytes
take_word [] = []
take_word (c ∷ s) = let later = take_word s in if is_space c then [] else c ∷ later

unfoldable pub drop_word : Bytes → Bytes
drop_word [] = []
drop_word (c ∷ s) = let later = drop_word s in if is_space c then c ∷ s else later

-- `stream >> word`: the word, which is empty if the extraction fails, and the rest.
unfoldable pub extract : Bytes → Bytes × Bytes
extract s = (take_word (skip_space s), drop_word (skip_space s))

unfoldable pub is_allowed_method : Bytes → Bool
is_allowed_method m =
    same m (codes "GET") || same m (codes "POST") || same m (codes "PUT") || same m (codes "DELETE")

-- `!url.empty() && url[0] == '/'`.
unfoldable pub begins_with_slash : Bytes → Bool
begins_with_slash [] = false
begins_with_slash (c ∷ s) = c == b'/'

abbrev pub invalid : Request → Bool × Request
invalid r = (false, record r { is_valid = false })

unfoldable pub parse_words : Bytes → Bytes → Bytes → Request → Bool × Request
parse_words method url http_version r =
    if is_empty http_version
    then invalid r
    else if not (is_allowed_method method)
    then invalid r
    else if not (begins_with_slash url)
    then invalid r
    else if not (same http_version (codes "HTTP/1.1"))
    then invalid r
    else (true, record r { method = method; url = url; http_version = codes "1.1" })

-- Once an extraction fails, so do those behind it: the last word is then empty.
unfoldable pub parse_request_line : Bytes → Request → Bool × Request
parse_request_line line r =
    let (method, rest) = extract line in
    let (url, rest') = extract rest in
    let (http_version, rest'') = extract rest' in parse_words method url http_version r

-- A space or a tab.
abbrev pub is_blank : ℕ → Bool
is_blank c = c == b' ' || c == b'\t'

unfoldable pub parse_header_line : Bytes → Request → Bool × Request
parse_header_line line r = elim (find (codes ":") line) [
  | none ↦ (false, r)
  | some colon ↦ (
    true,
    record r {
      headers =
          r.headers
          ++ ((take colon line
                ++ (codes ": " ++ trim_back is_blank (trim_front is_blank (drop (suc colon) line))))
              ∷ []);
    },
  )
]

-- The loop over the header lines. What `ParseHeaderLine` returns is not looked at.
unfoldable pub parse_headers : List Bytes → Request → Request
parse_headers [] r = r
parse_headers (line ∷ lines) r =
    let later = parse_headers lines (parse_header_line (strip_return line) r).1 in
    if same line (codes "\r") then r else if is_empty (strip_return line) then r else later

-- The part of `Parse` behind the request line.
unfoldable pub parse_rest : Bytes → ℕ → List Bytes → Request → Request
parse_rest buffer header_end lines r =
    let r' = parse_headers lines r in
    if ltb (header_end + 4) (length buffer)
    then record r' { body = drop (header_end + 4) buffer }
    else r'

unfoldable pub parse_lines : Bytes → ℕ → List Bytes → Request → Request
parse_lines buffer header_end [] r = record r { is_valid = false }
parse_lines buffer header_end (line ∷ lines) r =
    let (ok, r') = parse_request_line (strip_return line) r in
    if not ok then r' else parse_rest buffer header_end lines r'

unfoldable pub parse : Bytes → Request → Bool × Request
parse buffer r = elim (find (codes "\r\n\r\n") buffer) [
  | none ↦ (false, r)
  | some header_end ↦ (
    true,
    parse_lines buffer header_end (get_lines b'\n' buffer)
        (record r { is_valid = true; raw_request = buffer }),
  )
]
