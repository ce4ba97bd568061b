-- ===== src/Http/RequestText.antt =====
-- The text of a request as a client writes it, and the lines that `RequestParser::Parse`
-- (src/request_parser.cc) makes of it.
use mathlib.Core.List.{map}
use ucla_bathroom_ratings.Base.{
  ==_self, All, Bytes, codes, ends_in, pop_back, get_lines, ℕ, ◌≡◌, refl, ap, ◌∙◌, ◌≢◌, true, List,
  [], ◌∷◌, ◌++◌, arith,
}
use ucla_bathroom_ratings.Http.RequestParser.{strip_return}
use ucla_bathroom_ratings.Http.Serialized.{IsOneLine, IsFramed, end-IsFramed, line-IsFramed}

pub record Header : Type 0 where
  pub name : Bytes
  pub value : Bytes

pub record RequestText : Type 0 where
  pub method : Bytes
  pub url : Bytes
  pub headers : List Header
  pub body : Bytes

abbrev pub header_text : Header → Bytes
header_text h = h.name ++ (codes ": " ++ h.value)

abbrev pub request_line : Bytes → Bytes → Bytes
request_line method url = method ++ (b' ' ∷ (url ++ codes " HTTP/1.1"))

-- Lines, the blank line and a body.
abbrev pub message : Bytes → List Bytes → Bytes → Bytes
message l [] body = l ++ (codes "\r\n\r\n" ++ body)
message l (m ∷ ls) body = l ++ (codes "\r\n" ++ message m ls body)

abbrev pub render : RequestText → Bytes
render q = message (request_line q.method q.url) (map header_text q.headers) q.body

-- A line of a message: some text, without a carriage return or a line feed.
pub record IsLine (l : Bytes) : Type 0 where
  pub no_return : IsOneLine l
  pub no_feed : All (λ c. c ≢ b'\n') l
  pub some_text : l ≢ []

message_first :
    (c : ℕ) (l : Bytes) (ls : List Bytes) (body : Bytes)
    → message (c ∷ l) ls body ≡ c ∷ message l ls body
message_first c l [] body = refl
message_first c l (m ∷ ls) body = refl

pub message-IsFramed :
    (l : Bytes) (ls : List Bytes) (body : Bytes)
    → IsLine l
    → All IsLine ls
    → IsFramed (message l ls body) body
message-IsFramed l [] body h hs = end-IsFramed l body h.no_return
message-IsFramed l ([] ∷ ls) body h hs = absurd (hs.0.some_text refl)
message-IsFramed l ((c ∷ m) ∷ ls) body h hs =
    let first = message_first c m ls body in
    rw first (
      line-IsFramed l c (message m ls body) body h.no_return hs.0.no_return.0
        (rw (← first) (message-IsFramed (c ∷ m) ls body hs.0 hs.1)))

line_read :
    (l x : Bytes)
    → All (λ c. c ≢ b'\n') l
    → get_lines b'\n' (l ++ (codes "\r\n" ++ x)) ≡ (l ++ codes "\r") ∷ get_lines b'\n' x
unfolding get_lines
line_read [] x h = refl
line_read (c ∷ l) x (h, hs) = rw (line_read l x hs) (ground arith)

-- The lines of the head as `getline` reads them.
abbrev pub returned : List Bytes → List Bytes
returned [] = []
returned (l ∷ ls) = (l ++ codes "\r") ∷ returned ls

pub get_lines-message :
    (l : Bytes) (ls : List Bytes) (body : Bytes)
    → IsLine l
    → All IsLine ls
    → get_lines b'\n' (message l ls body)
      ≡ (l ++ codes "\r") ∷ (returned ls ++ (codes "\r" ∷ get_lines b'\n' body))
get_lines-message l [] body h hs =
    line_read l (codes "\r\n" ++ body) h.no_feed
    ∙ ap (λ ms. (l ++ codes "\r") ∷ ms) (line_read [] body tt)
get_lines-message l (m ∷ ls) body h hs =
    line_read l (message m ls body) h.no_feed
    ∙ ap (λ ms. (l ++ codes "\r") ∷ ms) (get_lines-message m ls body hs.0 hs.1)

ends_in-append : (c : ℕ) (l : Bytes) → ends_in c (l ++ (c ∷ [])) ≡ true
unfolding ends_in
ends_in-append c [] = ==_self c
ends_in-append c (x ∷ []) = ==_self c
ends_in-append c (x ∷ y ∷ l) = ends_in-append c (y ∷ l)

pop_back-append : (c : ℕ) (l : Bytes) → pop_back (l ++ (c ∷ [])) ≡ l
unfolding pop_back
pop_back-append c [] = refl
pop_back-append c (x ∷ []) = refl
pop_back-append c (x ∷ y ∷ l) = ap (◌∷◌ x) (pop_back-append c (y ∷ l))

pub strip_return-append : (l : Bytes) → strip_return (l ++ codes "\r") ≡ l
unfolding strip_return
strip_return-append l = rw (ends_in-append b'\r' l) (pop_back-append b'\r' l)
