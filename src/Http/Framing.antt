-- ===== src/Http/Framing.antt =====
-- Where a request ends for `RequestParser::Parse` (src/request_parser.cc): what stands behind the
-- first blank line is body, and changes nothing else.
use ucla_bathroom_ratings.Base.{
  Bool-cases, length, take, drop, Bytes, codes, same, find, get_lines, ℕ, zero, suc, ◌+◌, ◌≤◌, ◌≡◌,
  refl, sym, ap, ◌∙◌, ◌≢◌, inl, inr, Bool, true, false, none, some, List, [], ◌∷◌, ◌++◌,
  append_assoc, arith,
}
use ucla_bathroom_ratings.Http.Message.{Request}
use ucla_bathroom_ratings.Http.RequestParser.{
  strip_return, parse_words, parse_request_line, parse_header_line, parse_headers, parse_rest,
  parse_lines, parse,
}
use ucla_bathroom_ratings.Base.Finding.{
  Found, find-Found, get_lines-concat-ne-nil, get_lines-append,
}
use ucla_bathroom_ratings.Http.Heads.{SameHead, parse_request_line-SameHead, parse_headers-SameHead}

-- The loop reads nothing behind a line that is a lone "\r".
parse_headers_stop :
    (ls ms : List Bytes) (r : Request)
    → parse_headers (ls ++ (codes "\r" ∷ ms)) r ≡ parse_headers ls r
unfolding parse_headers same
parse_headers_stop [] ms r = refl
parse_headers_stop (l ∷ ls) ms r = rw (parse_headers_stop ls ms)

abbrev pub blank_line : Bytes
blank_line = codes "\r\n\r\n"

-- The lines in front of the blank one.
abbrev head_lines : Bytes → ℕ → List Bytes
head_lines b n = get_lines b'\n' (take n b ++ (b'\r' ∷ b'\n' ∷ []))

get_lines-blank :
    (h t : Bytes)
    → get_lines b'\n' (h ++ (blank_line ++ t))
      ≡ get_lines b'\n' (h ++ (b'\r' ∷ b'\n' ∷ [])) ++ (codes "\r" ∷ get_lines b'\n' t)
get_lines-blank h t =
    ap (get_lines b'\n') (sym (append_assoc h (b'\r' ∷ []) (b'\n' ∷ b'\r' ∷ b'\n' ∷ t)))
    ∙ get_lines-append b'\n' (h ++ (b'\r' ∷ [])) (b'\r' ∷ b'\n' ∷ t)
    ∙ ap (λ (s : Bytes). get_lines b'\n' s ++ get_lines b'\n' (b'\r' ∷ b'\n' ∷ t))
        (append_assoc h (b'\r' ∷ []) (b'\n' ∷ []))
    ∙ (unfold get_lines in refl)

get_lines-head :
    (b : Bytes) (n : ℕ)
    → Found blank_line b n
    → get_lines b'\n' b ≡ head_lines b n ++ (codes "\r" ∷ get_lines b'\n' (drop (n + 4) b))
get_lines-head b n f = ap (get_lines b'\n') f.splits ∙ get_lines-blank (take n b) (drop (n + 4) b)

parse_lines_stop :
    (b : Bytes) (n : ℕ) (ls ms : List Bytes) (r : Request)
    → ls ≢ []
    → parse_lines b n (ls ++ (codes "\r" ∷ ms)) r ≡ parse_lines b n ls r
parse_lines_stop b n [] ms r h = absurd (h refl)
parse_lines_stop b n (l ∷ ls) ms r h =
    unfold parse_lines parse_rest in rw (parse_headers_stop ls ms)

head_lines-ne-nil : (b : Bytes) (n : ℕ) → head_lines b n ≢ []
head_lines-ne-nil b n e =
    get_lines-concat-ne-nil b'\n' (take n b ++ (b'\r' ∷ [])) b'\n'
      (ap (get_lines b'\n') (append_assoc (take n b) (b'\r' ∷ []) (b'\n' ∷ [])) ∙ e)

abbrev begun : Bytes → Request → Request
begun b r = record r { is_valid = true; raw_request = b }

-- `Parse` reads the lines in front of the blank one only.
pub parse_complete :
    (b : Bytes) (n : ℕ) (r : Request)
    → find blank_line b ≡ some n
    → parse b r ≡ (true, parse_lines b n (head_lines b n) (begun b r))
unfolding parse
parse_complete b n r e =
    rw (e, parse)
      (rw (get_lines-head b n (find-Found blank_line b n e))
        (rw (parse_lines_stop b n (head_lines b n) _ (begun b r) (head_lines-ne-nil b n))))

pub parse-incomplete : (b : Bytes) (r : Request) → find blank_line b ≡ none → parse b r ≡ (false, r)
unfolding parse
parse-incomplete b r e = rw (e, parse)

-- A request line that is refused leaves an invalid request, and one that is taken a valid one; the
-- body is left alone.
abbrev LineResult : Request → Bool × Request → Type 0
LineResult r p = ((p.1).is_valid ≡ p.0) × ((p.1).body ≡ r.body)

parse_request_line-LineResult :
    (line : Bytes) (r : Request) → r.is_valid ≡ true → LineResult r (parse_request_line line r)
unfolding parse_request_line parse_words
parse_request_line-LineResult line r v = ground arith

abbrev KeepsRest : Request → Request → Type 0
KeepsRest r r' = (r'.is_valid ≡ r.is_valid) × (r'.body ≡ r.body)

parse_header_line-KeepsRest : (l : Bytes) (r : Request) → KeepsRest r (parse_header_line l r).1
unfolding parse_header_line
parse_header_line-KeepsRest l r = ground arith

parse_headers-KeepsRest : (ls : List Bytes) (r : Request) → KeepsRest r (parse_headers ls r)
unfolding parse_headers
parse_headers-KeepsRest [] r = (refl, refl)
parse_headers-KeepsRest (l ∷ ls) r = ground (
  arith,
  parse_headers-KeepsRest ls (parse_header_line (strip_return l) r).1,
  parse_header_line-KeepsRest (strip_return l) r,
)

drop_all : {A : Type 0} (n : ℕ) (s : List A) → length s ≤ n → drop n s ≡ []
drop_all zero [] h = refl
drop_all zero (x ∷ s) h = absurd (omega arith)
drop_all (suc n) [] h = refl
drop_all (suc n) (x ∷ s) h = drop_all n s (omega arith)

-- The body is what stands behind the blank line.
parse_rest-body :
    (b : Bytes) (n : ℕ) (ls : List Bytes) (r : Request)
    → n + 4 ≤ length b
    → r.body ≡ []
    → (parse_rest b n ls r).body ≡ drop (n + 4) b
unfolding parse_rest
parse_rest-body b n ls r le e = ground (arith, (parse_headers-KeepsRest ls r).1, drop_all (n + 4) b)

parse_rest-SameHead :
    (b b' : Bytes) (n : ℕ) (ls : List Bytes) (r r' : Request)
    → SameHead r r'
    → SameHead (parse_rest b n ls r) (parse_rest b' n ls r')
unfolding parse_rest
parse_rest-SameHead b b' n ls r r' h = ground (arith, parse_headers-SameHead ls r r' h)

parse_lines-SameHead :
    (b b' : Bytes) (n : ℕ) (ls : List Bytes) (r r' : Request)
    → SameHead r r'
    → SameHead (parse_lines b n ls r) (parse_lines b' n ls r')
unfolding parse_lines
parse_lines-SameHead b b' n [] r r' h = ground arith
parse_lines-SameHead b b' n (l ∷ ls) r r' h =
    let (k, e) = parse_request_line-SameHead (strip_return l) r r' h in
    elim (Bool-cases (parse_request_line (strip_return l) r).0) [
      | inl good ↦ rw (good, sym e ∙ good) (parse_rest-SameHead b b' n ls _ _ k)
      | inr bad ↦ rw (bad, sym e ∙ bad) k
    ]

clash : {b : Bool} → b ≡ true → b ≡ false → ⊥
clash h k = ground arith

parse_lines-body :
    (b : Bytes) (n : ℕ) (ls : List Bytes) (r : Request)
    → n + 4 ≤ length b
    → r.is_valid ≡ true
    → r.body ≡ []
    → (parse_lines b n ls r).is_valid ≡ true
    → (parse_lines b n ls r).body ≡ drop (n + 4) b
unfolding parse_lines
parse_lines-body b n [] r le v e h = absurd (ground arith)
parse_lines-body b n (l ∷ ls) r le v e h =
    let (k, m) = parse_request_line-LineResult (strip_return l) r v in
    elim (Bool-cases (parse_request_line (strip_return l) r).0) [
      | inl good ↦ rw good (parse_rest-body b n ls _ le (m ∙ e))
      | inr bad ↦ absurd (clash (rw bad at h) (rw bad at k))
    ]

module _ (b x : Bytes) (n : ℕ) (r : Request) (complete : find blank_line b ≡ some n) where
  parse-later :
      parse (b ++ x) r ≡ (true, parse_lines (b ++ x) n (head_lines b n) (begun (b ++ x) r))
  parse-later =
      let f = find-Found blank_line b n complete in
      parse_complete (b ++ x) n r (f.stable x)
      ∙ ap
          (λ (h : Bytes). (
            true,
            parse_lines (b ++ x) n (get_lines b'\n' (h ++ (b'\r' ∷ b'\n' ∷ []))) (begun (b ++ x) r),
          ))
          (f.take_stable x)

-- Once the blank line has been read, more bytes change neither the validity, nor the method, nor
-- the URL, nor the version, nor the headers of the request.
pub parse-append-SameHead :
    (b x : Bytes) (n : ℕ) (r : Request)
    → find blank_line b ≡ some n
    → SameHead (parse b r).1 (parse (b ++ x) r).1
parse-append-SameHead b x n r e =
    rw (parse_complete b n r e, parse-later b x n r e)
      (parse_lines-SameHead b (b ++ x) n (head_lines b n) (begun b r) (begun (b ++ x) r) (record {
        is_valid_same = refl;
        method_same = refl;
        url_same = refl;
        http_version_same = refl;
        headers_same = refl;
      }))

parse-body :
    (b : Bytes) (n : ℕ) (r : Request)
    → find blank_line b ≡ some n
    → r.body ≡ []
    → ((parse b r).1).is_valid ≡ true
    → ((parse b r).1).body ≡ drop (n + 4) b
parse-body b n r e blank valid =
    let f = find-Found blank_line b n e in
    let q = parse_complete b n r e in
    rw q (parse_lines-body b n (head_lines b n) (begun b r) f.fits refl blank (rw q at valid))

-- Where the bytes hold a blank line, the request that they fill had no body before, and it comes
-- out valid, those behind the blank line are its body: more bytes make it longer.
pub parse-append-body :
    (b x : Bytes) (n : ℕ) (r : Request)
    → find blank_line b ≡ some n
    → r.body ≡ []
    → ((parse b r).1).is_valid ≡ true
    → ((parse (b ++ x) r).1).body ≡ ((parse b r).1).body ++ x
parse-append-body b x n r e blank valid =
    let f = find-Found blank_line b n e in
    let later = parse-append-SameHead b x n r e in
    parse-body (b ++ x) n r (f.stable x) blank (sym later.is_valid_same ∙ valid)
    ∙ f.drop_stable x
    ∙ ap (λ (y : Bytes). y ++ x) (sym (parse-body b n r e blank valid))
