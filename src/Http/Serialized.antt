-- ===== src/Http/Serialized.antt =====
-- The message that `SerializeResponse` (src/session.cc) makes of a response of `ResponseBuilder`
-- (src/response_builder.cc).
use ucla_bathroom_ratings.Base.{
  ◌==◌, length, drop, all, All, All-append, Bytes, codes, starts_with, find, ℕ, suc, ◌+◌, ◌<◌, ◌≡◌,
  refl, ap, ◌∙◌, ◌≢◌, true, false, not, some, [], ◌∷◌, ◌++◌, arith,
}
use ucla_bathroom_ratings.Http.Framing.{blank_line}
use ucla_bathroom_ratings.Base.Decimal.{to_decimal, decimal_loop-All}
use ucla_bathroom_ratings.Http.ResponseBuilder.{format_response, serialize_headers, serialize}

-- No carriage return stands in the text.
abbrev pub IsOneLine : Bytes → Type 0
IsOneLine s = All (λ c. c ≢ b'\r') s

skip_byte :
    (c : ℕ) (s : Bytes) (n : ℕ)
    → c ≢ b'\r'
    → find blank_line s ≡ some n
    → find blank_line (c ∷ s) ≡ some (suc n)
unfolding find starts_with
skip_byte c s n h e = ground arith

-- The blank line behind a text of one line.
find_line_end :
    (l x : Bytes) → IsOneLine l → find blank_line (l ++ (codes "\r\n\r\n" ++ x)) ≡ some (length l)
find_line_end [] x h = unfold find starts_with in refl
find_line_end (c ∷ l) x (h, hs) = skip_byte c _ (length l) h (find_line_end l x hs)

-- A line that is not followed by a blank one.
skip_line :
    (l : Bytes) (c : ℕ) (t : Bytes) (n : ℕ)
    → IsOneLine l
    → c ≢ b'\r'
    → find blank_line (c ∷ t) ≡ some n
    → find blank_line (l ++ (codes "\r\n" ++ (c ∷ t))) ≡ some (length l + suc (suc n))
unfolding find starts_with
skip_line [] c t n h k e = ground arith
skip_line (d ∷ l) c t n (h, hs) k e =
    skip_byte d (l ++ (codes "\r\n" ++ (c ∷ t))) _ h (skip_line l c t n hs k e)
    ∙ ap some (omega arith)

pub drop_behind : (l t : Bytes) (k : ℕ) → drop (length l + k) (l ++ t) ≡ drop k t
drop_behind [] t k = ap (λ (n : ℕ). drop n t) (omega arith)
drop_behind (c ∷ l) t k =
    let e : length (c ∷ l) + k ≡ suc (length l + k) = omega arith in rw e (drop_behind l t k)

-- The body is what stands behind the first blank line.
pub record IsFramed (message body : Bytes) : Type 0 where
  pub head_length : ℕ
  pub ends_head : find blank_line message ≡ some head_length
  pub body_behind : drop (head_length + 4) message ≡ body

pub end-IsFramed : (l x : Bytes) → IsOneLine l → IsFramed (l ++ (codes "\r\n\r\n" ++ x)) x
end-IsFramed l x h = record {
  head_length = length l;
  ends_head = find_line_end l x h;
  body_behind = drop_behind l (codes "\r\n\r\n" ++ x) 4;
}

pub line-IsFramed :
    (l : Bytes) (c : ℕ) (t x : Bytes)
    → IsOneLine l
    → c ≢ b'\r'
    → IsFramed (c ∷ t) x
    → IsFramed (l ++ (codes "\r\n" ++ (c ∷ t))) x
line-IsFramed l c t x h k f =
    let e : (length l + suc (suc f.head_length)) + 4 ≡ length l + suc (suc (f.head_length + 4)) =
      omega arith in
    record {
      head_length = length l + suc (suc f.head_length);
      ends_head = skip_line l c t f.head_length h k f.ends_head;
      body_behind =
          rw e (
            drop_behind l (codes "\r\n" ++ (c ∷ t)) (suc (suc (f.head_length + 4)))
            ∙ f.body_behind);
    }

digit_plain : (d : ℕ) → d < 10 → b'0' + d ≢ b'\r'
digit_plain d h e = omega arith

-- A literal without a carriage return.
pub one_line : (s : Bytes) → all (λ c. not (c == b'\r')) s ≡ true → IsOneLine s
one_line [] h = tt
one_line (c ∷ s) h = (ground arith, one_line s (ground arith))

module _ (status_code content_type body : Bytes) where
  abbrev close_line : Bytes
  close_line = codes "onnection: close" ++ (codes "\r\n\r\n" ++ body)

  abbrev length_line : Bytes
  length_line =
      codes "ontent-Length: " ++ (to_decimal (length body) ++ (codes "\r\n" ++ (b'C' ∷ close_line)))

  abbrev type_line : Bytes
  type_line = codes "ontent-Type: " ++ (content_type ++ (codes "\r\n" ++ (b'C' ∷ length_line)))

  labelled : (label value : Bytes) → IsOneLine label → IsOneLine value → IsOneLine (label ++ value)
  labelled label value h k = All-append (λ c. c ≢ b'\r') label value h k

  not_return : (c : ℕ) → (c == b'\r') ≡ false → c ≢ b'\r'
  not_return c h = ground arith

  close-IsFramed : IsFramed (b'C' ∷ close_line) body
  close-IsFramed =
      end-IsFramed (codes "Connection: close") body (one_line (codes "Connection: close") refl)

  length-IsFramed : IsFramed (b'C' ∷ length_line) body
  length-IsFramed =
      line-IsFramed (codes "Content-Length: " ++ to_decimal (length body)) b'C' close_line body
        (labelled (codes "Content-Length: ") (to_decimal (length body))
          (one_line (codes "Content-Length: ") refl)
          (unfold to_decimal in
            decimal_loop-All (λ c. c ≢ b'\r') digit_plain (suc (length body)) (length body)))
        (not_return b'C' refl) close-IsFramed

  type-IsFramed : IsOneLine content_type → IsFramed (b'C' ∷ type_line) body
  type-IsFramed h =
      line-IsFramed (codes "Content-Type: " ++ content_type) b'C' length_line body
        (labelled (codes "Content-Type: ") content_type (one_line (codes "Content-Type: ") refl) h)
        (not_return b'C' refl) length-IsFramed

  -- Where neither the status nor the content type holds a carriage return, the body of the
  -- serialized response is what stands behind its first blank line, whatever the body holds.
  pub serialize-IsFramed :
      IsOneLine status_code
      → IsOneLine content_type
      → IsFramed (serialize (format_response status_code content_type body)) body
  unfolding serialize serialize_headers format_response
  serialize-IsFramed h k =
      line-IsFramed (codes "HTTP/1.1 " ++ status_code) b'C' type_line body
        (labelled (codes "HTTP/1.1 ") status_code (one_line (codes "HTTP/1.1 ") refl) h)
        (not_return b'C' refl) (type-IsFramed k)
