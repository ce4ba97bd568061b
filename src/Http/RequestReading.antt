-- ===== src/Http/RequestReading.antt =====
-- `RequestParser::Parse` (src/request_parser.cc) on the text of a request.
use mathlib.Core.List.{map}
use ucla_bathroom_ratings.Base.{
  ltb, ◌==◌, if◌then◌else◌, Bool-cases, length, drop, all, All, All-append, Bytes, codes, get_lines,
  ℕ, zero, suc, ◌+◌, ◌≤◌, ◌≡◌, refl, sym, ap, ◌∙◌, ◌≢◌, inl, inr, true, false, not, List, [], ◌∷◌,
  ◌++◌, arith,
}
use ucla_bathroom_ratings.Http.Message.{Request}
use ucla_bathroom_ratings.Http.RequestParser.{
  is_space, is_allowed_method, begins_with_slash, parse_rest, parse_lines, parse,
}
use ucla_bathroom_ratings.Http.RequestText.{
  Header, RequestText, header_text, request_line, render, IsLine, message-IsFramed,
  get_lines-message, strip_return-append,
}
use ucla_bathroom_ratings.Http.RequestWords.{
  IsWord, parse_request_line-request_line, IsHeader, with_headers, parse_headers-returned,
}
use ucla_bathroom_ratings.Http.Serialized.{IsFramed}

-- A request that HTTP/1.1 lets a client write and that the server accepts: one of the four methods,
-- an absolute path without white space, and header lines.
pub record IsRequestText (q : RequestText) : Type 0 where
  pub method_word : IsWord q.method
  pub method_allowed : is_allowed_method q.method ≡ true
  pub url_word : IsWord q.url
  pub url_absolute : begins_with_slash q.url ≡ true
  pub headers_well : All IsHeader q.headers

-- The request that a server should make of the text.
abbrev pub parsed : RequestText → Request → Request
parsed q r = record {
  is_valid = true;
  raw_request = render q;
  method = q.method;
  url = q.url;
  http_version = codes "1.1";
  headers = r.headers ++ map header_text q.headers;
  body = q.body;
}

different : (c d : ℕ) → is_space d ≡ true → is_space c ≡ false → c ≢ d
different c d h k e = let spaced : is_space c ≡ true = ap is_space e ∙ h in ground arith

word_no : (d : ℕ) (a : Bytes) → is_space d ≡ true → IsWord a → All (λ c. c ≢ d) a
word_no d [] h k = tt
word_no d (c ∷ a) h k = (λ e. different c d h k.0 e, word_no d a h k.1)

pub lacks : (d : ℕ) (s : Bytes) → all (λ c. not (c == d)) s ≡ true → All (λ c. c ≢ d) s
lacks d [] h = tt
lacks d (c ∷ s) h = (ground arith, lacks d s (ground arith))

pub no_space-IsWord : (s : Bytes) → all (λ c. not (is_space c)) s ≡ true → IsWord s
no_space-IsWord [] h = tt
no_space-IsWord (c ∷ s) h = (ground arith, no_space-IsWord s (ground arith))

append_cons-ne-nil : (a : Bytes) (c : ℕ) (s : Bytes) → a ++ (c ∷ s) ≢ []
append_cons-ne-nil [] c s = cc
append_cons-ne-nil (d ∷ a) c s = cc

-- A byte that no word and no part of the version holds does not stand in the request line.
request_line_no :
    (d : ℕ) (q : RequestText)
    → is_space d ≡ true
    → b' ' ≢ d
    → all (λ c. not (c == d)) (codes " HTTP/1.1") ≡ true
    → IsRequestText q
    → All (λ c. c ≢ d) (request_line q.method q.url)
request_line_no d q s blank version h =
    All-append (λ c. c ≢ d) q.method (b' ' ∷ (q.url ++ codes " HTTP/1.1"))
      (word_no d q.method s h.method_word)
      (
        blank,
        All-append (λ c. c ≢ d) q.url (codes " HTTP/1.1") (word_no d q.url s h.url_word)
            (lacks d (codes " HTTP/1.1") version),
      )

request_line-IsLine : (q : RequestText) → IsRequestText q → IsLine (request_line q.method q.url)
request_line-IsLine q h = record {
  no_return = request_line_no b'\r' q (unfold is_space in refl) (ground arith) refl h;
  no_feed = request_line_no b'\n' q (unfold is_space in refl) (ground arith) refl h;
  some_text = append_cons-ne-nil q.method b' ' (q.url ++ codes " HTTP/1.1");
}

headers-IsLine : (hs : List Header) → All IsHeader hs → All IsLine (map header_text hs)
headers-IsLine [] k = tt
headers-IsLine (h ∷ hs) k = (k.0.is_line, headers-IsLine hs k.1)

drop_all : (n : ℕ) (s : Bytes) → length s ≤ n → drop n s ≡ []
drop_all zero [] h = refl
drop_all zero (c ∷ s) h = ground arith
drop_all (suc n) [] h = refl
drop_all (suc n) (c ∷ s) h = drop_all n s (omega arith)

body_read :
    (b body : Bytes) (n : ℕ) (r : Request)
    → drop n b ≡ body
    → r.body ≡ []
    → (if ltb n (length b) then record r { body = drop n b } else r) ≡ record r { body = body }
body_read b body n r h k = elim (Bool-cases (ltb n (length b))) [
  | inl some_body ↦ rw (some_body, h) refl
  | inr no_body ↦
      let e : r.body ≡ body = k ∙ sym (drop_all n b (ground arith)) ∙ h in
      rw no_body (ap (λ (x : Bytes). record r { body = x }) e)
]

pub render-IsFramed : (q : RequestText) → IsRequestText q → IsFramed (render q) q.body
render-IsFramed q h =
    message-IsFramed (request_line q.method q.url) (map header_text q.headers) q.body
      (request_line-IsLine q h) (headers-IsLine q.headers h.headers_well)

-- Once the request line was read.
abbrev line_parsed : RequestText → Request → Request
line_parsed q r = record r { method = q.method; url = q.url; http_version = codes "1.1" }

parse_lines-render :
    (q : RequestText) (n : ℕ) (r : Request)
    → IsRequestText q
    → drop (n + 4) (render q) ≡ q.body
    → r.body ≡ []
    → parse_lines (render q) n (get_lines b'\n' (render q)) r
      ≡ record (parsed q r) { is_valid = r.is_valid; raw_request = r.raw_request }
unfolding parse_lines parse_rest
parse_lines-render q n r h e k =
    rw
      (get_lines-message (request_line q.method q.url) (map header_text q.headers) q.body
        (request_line-IsLine q h) (headers-IsLine q.headers h.headers_well))
      (rw (strip_return-append (request_line q.method q.url)) (
        rw
          (parse_request_line-request_line q.method q.url r h.method_word h.url_word
            h.method_allowed h.url_absolute)
          (rw
            (parse_headers-returned q.headers (get_lines b'\n' q.body) (line_parsed q r)
              h.headers_well)
            (body_read (render q) q.body (n + 4)
              (with_headers (map header_text q.headers) (line_parsed q r)) e k))))

-- The parser reads what a client writes. For one of the four methods, an absolute path without
-- white space, and headers whose names have no colon, whose values are trimmed and which are
-- lines, the text of the request is complete and valid, and the parser gives its method, path,
-- version, headers and body, where the request object that it fills had no body; its headers
-- stand behind those that the object had.
pub parse-render :
    (q : RequestText) (r : Request)
    → IsRequestText q
    → r.body ≡ []
    → parse (render q) r ≡ (true, parsed q r)
unfolding parse
parse-render q r h k =
    let f = render-IsFramed q h in
    rw (f.ends_head, parse)
      (ap (λ (x : Request). (true, x))
        (parse_lines-render q f.head_length (record r { is_valid = true; raw_request = render q }) h
          f.body_behind k))
