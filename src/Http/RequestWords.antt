-- ===== src/Http/RequestWords.antt =====
-- What `RequestParser::Parse` (src/request_parser.cc) makes of a request line and of header lines.
use mathlib.Core.List.{map}
use ucla_bathroom_ratings.Base.{
  length, is_empty, drop, take-length-append, All, Bytes, codes, same, starts_with, find,
  trim_front, trim_back, ℕ, suc, ◌≡◌, refl, sym, ap, ◌∙◌, ◌≢◌, true, false, some, List, [], ◌∷◌,
  ◌++◌, append_assoc, append-nil, arith,
}
use ucla_bathroom_ratings.Http.RequestParser.{
  is_space, skip_space, take_word, drop_word, extract, is_allowed_method, begins_with_slash,
  parse_words, parse_request_line, is_blank, parse_header_line, parse_headers,
}
use ucla_bathroom_ratings.Http.Message.{Request}
use ucla_bathroom_ratings.Http.RequestText.{
  Header, header_text, request_line, IsLine, returned, strip_return-append,
}

-- A word without white space.
abbrev pub IsWord : Bytes → Type 0
IsWord = All (λ c. is_space c ≡ false)

take_word_append :
    (a : Bytes) (c : ℕ) (s : Bytes) → IsWord a → is_space c ≡ true → take_word (a ++ (c ∷ s)) ≡ a
unfolding take_word
take_word_append [] c s h k = rw k
take_word_append (d ∷ a) c s h k = rw (h.0, take_word_append a c s h.1 k)

drop_word_append :
    (a : Bytes) (c : ℕ) (s : Bytes)
    → IsWord a
    → is_space c ≡ true
    → drop_word (a ++ (c ∷ s)) ≡ c ∷ s
unfolding drop_word
drop_word_append [] c s h k = rw k
drop_word_append (d ∷ a) c s h k = rw (h.0, drop_word_append a c s h.1 k)

space-is_space : is_space b' ' ≡ true
unfolding is_space
space-is_space = refl

-- A word in front of a space is extracted, and the space stays.
extract_word : (a s : Bytes) → IsWord a → a ≢ [] → extract (a ++ (b' ' ∷ s)) ≡ (a, b' ' ∷ s)
unfolding extract skip_space
extract_word [] s h k = absurd (k refl)
extract_word (d ∷ a) s h k = rw h.0 (
    rw (take_word_append (d ∷ a) b' ' s h space-is_space)
      (rw (drop_word_append (d ∷ a) b' ' s h space-is_space)))

extract_space : (s : Bytes) → extract (b' ' ∷ s) ≡ extract s
unfolding extract skip_space is_space
extract_space s = refl

extract_version : extract (codes " HTTP/1.1") ≡ (codes "HTTP/1.1", [])
unfolding extract skip_space take_word drop_word is_space
extract_version = refl

parse_words_valid :
    (method url : Bytes) (r : Request)
    → is_allowed_method method ≡ true
    → begins_with_slash url ≡ true
    → parse_words method url (codes "HTTP/1.1") r
      ≡ (true, record r { method = method; url = url; http_version = codes "1.1" })
unfolding parse_words same
parse_words_valid method url r h k = rw (h, k)

begins_with_slash-ne-nil : (u : Bytes) → begins_with_slash u ≡ true → u ≢ []
unfolding begins_with_slash
begins_with_slash-ne-nil [] h = absurd (ground arith)
begins_with_slash-ne-nil (c ∷ u) h = cc

is_allowed_method-ne-nil : (m : Bytes) → is_allowed_method m ≡ true → m ≢ []
unfolding is_allowed_method same
is_allowed_method-ne-nil [] h = absurd (ground arith)
is_allowed_method-ne-nil (c ∷ m) h = cc

pub parse_request_line-request_line :
    (method url : Bytes) (r : Request)
    → IsWord method
    → IsWord url
    → is_allowed_method method ≡ true
    → begins_with_slash url ≡ true
    → parse_request_line (request_line method url) r
      ≡ (true, record r { method = method; url = url; http_version = codes "1.1" })
unfolding parse_request_line
parse_request_line-request_line method url r m u allowed slash =
    rw (extract_word method (url ++ codes " HTTP/1.1") m (is_allowed_method-ne-nil method allowed))
      (rw (extract_space (url ++ codes " HTTP/1.1")) (
        rw (extract_word url (codes "HTTP/1.1") u (begins_with_slash-ne-nil url slash))
          (rw extract_version (parse_words_valid method url r allowed slash))))

-- A header whose name has no colon and whose value is trimmed.
pub record IsHeader (h : Header) : Type 0 where
  pub no_colon : All (λ c. c ≢ b':') h.name
  pub trimmed : trim_back is_blank (trim_front is_blank h.value) ≡ h.value
  pub is_line : IsLine (header_text h)

find_colon :
    (a s : Bytes) → All (λ c. c ≢ b':') a → find (codes ":") (a ++ (b':' ∷ s)) ≡ some (length a)
unfolding find starts_with
find_colon [] s h = ground arith
find_colon (c ∷ a) s h = rw (find_colon a s h.1) (ground arith)

abbrev pub with_headers : List Bytes → Request → Request
with_headers hs r = record r { headers = r.headers ++ hs }

drop_name : (a v : Bytes) → drop (suc (length a)) (a ++ (codes ": " ++ v)) ≡ b' ' ∷ v
drop_name [] v = refl
drop_name (c ∷ a) v = drop_name a v

abbrev read_value : Header → Bytes
read_value h = trim_back is_blank (trim_front is_blank (drop (suc (length h.name)) (header_text h)))

value_read : (h : Header) → IsHeader h → read_value h ≡ h.value
unfolding trim_front
value_read h k =
    ap (λ (x : Bytes). trim_back is_blank (trim_front is_blank x)) (drop_name h.name h.value)
    ∙ k.trimmed

parse_header_line-header_text :
    (h : Header) (r : Request)
    → IsHeader h
    → parse_header_line (header_text h) r ≡ (true, with_headers (header_text h ∷ []) r)
unfolding parse_header_line
parse_header_line-header_text h r k =
    rw (find_colon h.name (b' ' ∷ h.value) k.no_colon, parse_header_line)
      (ap (λ (x : Bytes). (true, with_headers ((x ++ (codes ": " ++ read_value h)) ∷ []) r))
          (take-length-append h.name (codes ": " ++ h.value))
        ∙ ap (λ (x : Bytes). (true, with_headers ((h.name ++ (codes ": " ++ x)) ∷ []) r))
            (value_read h k))

same-return : (l : Bytes) → l ≢ [] → same (l ++ codes "\r") (codes "\r") ≡ false
unfolding same
same-return [] h = absurd (h refl)
same-return (c ∷ []) h = ground arith
same-return (c ∷ d ∷ l) h = ground arith

is_empty-ne-nil : (l : Bytes) → l ≢ [] → is_empty l ≡ false
is_empty-ne-nil [] h = absurd (h refl)
is_empty-ne-nil (c ∷ l) h = refl

pub parse_headers-returned :
    (hs : List Header) (ms : List Bytes) (r : Request)
    → All IsHeader hs
    → parse_headers (returned (map header_text hs) ++ (codes "\r" ∷ ms)) r
      ≡ with_headers (map header_text hs) r
unfolding parse_headers same
parse_headers-returned [] ms r k =
    ap (λ (x : List Bytes). record r { headers = x }) (sym (append-nil r.headers))
parse_headers-returned (h ∷ hs) ms r k = rw (same-return (header_text h) k.0.is_line.some_text) (
    rw (strip_return-append (header_text h)) (
      rw (is_empty-ne-nil (header_text h) k.0.is_line.some_text) (
        rw (parse_header_line-header_text h r k.0) (
          parse_headers-returned hs ms (with_headers (header_text h ∷ []) r) k.1
          ∙ ap (λ (x : List Bytes). record r { headers = x })
              (append_assoc r.headers (header_text h ∷ []) (map header_text hs))))))
