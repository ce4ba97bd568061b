-- ===== src/Http/Heads.antt =====
-- Requests that agree but for the raw text and the body, in `RequestParser`
-- (src/request_parser.cc).
use ucla_bathroom_ratings.Base.{
  Bool-cases, is_empty, Bytes, codes, same, ◌≡◌, inl, inr, List, [], ◌∷◌, arith,
}
use ucla_bathroom_ratings.Http.Message.{Request}
use ucla_bathroom_ratings.Http.RequestParser.{
  strip_return, parse_words, parse_request_line, parse_header_line, parse_headers,
}

-- The two agree but for the raw text and the body.
pub record SameHead (r r' : Request) : Type 0 where
  pub is_valid_same : r.is_valid ≡ r'.is_valid
  pub method_same : r.method ≡ r'.method
  pub url_same : r.url ≡ r'.url
  pub http_version_same : r.http_version ≡ r'.http_version
  pub headers_same : r.headers ≡ r'.headers

parse_words-SameHead :
    (m u v : Bytes) (r r' : Request)
    → SameHead r r'
    → SameHead (parse_words m u v r).1 (parse_words m u v r').1
      × ((parse_words m u v r).0 ≡ (parse_words m u v r').0)
unfolding parse_words
parse_words-SameHead m u v r r' h = ground arith

pub parse_request_line-SameHead :
    (line : Bytes) (r r' : Request)
    → SameHead r r'
    → SameHead (parse_request_line line r).1 (parse_request_line line r').1
      × ((parse_request_line line r).0 ≡ (parse_request_line line r').0)
unfolding parse_request_line
parse_request_line-SameHead line r r' h = parse_words-SameHead _ _ _ r r' h

parse_header_line-SameHead :
    (line : Bytes) (r r' : Request)
    → SameHead r r'
    → SameHead (parse_header_line line r).1 (parse_header_line line r').1
unfolding parse_header_line
parse_header_line-SameHead line r r' h = ground arith

pub parse_headers-SameHead :
    (ls : List Bytes) (r r' : Request)
    → SameHead r r'
    → SameHead (parse_headers ls r) (parse_headers ls r')
unfolding parse_headers
parse_headers-SameHead [] r r' h = h
parse_headers-SameHead (l ∷ ls) r r' h =
    let later =
      parse_headers-SameHead ls _ _ (parse_header_line-SameHead (strip_return l) r r' h) in
    elim (Bool-cases (same l (codes "\r"))) [
      | inl stop ↦ rw stop h
      | inr a ↦ elim (Bool-cases (is_empty (strip_return l))) [
        | inl stop ↦ rw (a, stop) h
        | inr b ↦ rw (a, b) later
      ]
    ]
