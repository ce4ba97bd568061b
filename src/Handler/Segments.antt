-- ===== src/Handler/Segments.antt =====
-- `ExtractSegments` (src/request_handler_api.cc) on the URL that is made of a prefix and segments.
use ucla_bathroom_ratings.Base.{
  length, is_empty, drop-length-append, take-length-append, All, All-append, Bytes, codes,
  starts_with, find, trim_front, is_nil, trim_back, get_lines, starts_with-append, ℕ, ◌≡◌, refl, ap,
  ◌∙◌, ◌≢◌, Bool, true, false, none, some, List, [], ◌∷◌, ◌++◌, append-nil, arith,
}
use ucla_bathroom_ratings.Handler.Api.{
  cut_query, at_boundary, strip_prefix, is_slash, keep_nonempty, extract_segments,
}

-- A byte of a segment, and a segment.
abbrev pub IsSegmentByte : ℕ → Type 0
IsSegmentByte c = (c ≢ b'/') × (c ≢ b'?')

abbrev pub IsSegment : Bytes → Type 0
IsSegment s = (s ≢ []) × All IsSegmentByte s

abbrev pub IsPlainPrefix : Bytes → Type 0
IsPlainPrefix s = (s ≢ []) × All (λ c. c ≢ b'?') s

-- Each segment behind a slash.
abbrev pub join : List Bytes → Bytes
join [] = []
join (s ∷ ss) = b'/' ∷ (s ++ join ss)

no_query : (s : Bytes) → All (λ c. c ≢ b'?') s → find (codes "?") s ≡ none
unfolding find starts_with
no_query [] h = refl
no_query (c ∷ s) (h, hs) = rw (no_query s hs) (ground arith)

cut_query-plain : (s : Bytes) → All (λ c. c ≢ b'?') s → cut_query s ≡ s
unfolding cut_query
cut_query-plain s h = rw (cut_query, no_query s h) refl

bytes_plain : (s : Bytes) → All IsSegmentByte s → All (λ c. c ≢ b'?') s
bytes_plain [] h = tt
bytes_plain (c ∷ s) (h, hs) = (h.1, bytes_plain s hs)

not_query : (c : ℕ) → c ≡ b'/' → c ≢ b'?'
not_query c e f = omega arith

join_plain : (ss : List Bytes) → All IsSegment ss → All (λ c. c ≢ b'?') (join ss)
join_plain [] h = tt
join_plain (s ∷ ss) (h, hs) = (
  not_query b'/' refl,
  All-append (λ c. c ≢ b'?') s (join ss) (bytes_plain s h.1) (join_plain ss hs),
)

join_at_boundary : (ss : List Bytes) → at_boundary (join ss) ≡ true
join_at_boundary [] = refl
join_at_boundary (s ∷ ss) = refl

prefix_not_empty : (s : Bytes) → s ≢ [] → is_empty s ≡ false
prefix_not_empty [] h = absurd (h refl)
prefix_not_empty (c ∷ s) h = refl

strip_prefix-append :
    (prefix : Bytes) (ss : List Bytes)
    → prefix ≢ []
    → strip_prefix prefix (prefix ++ join ss) ≡ join ss
unfolding strip_prefix
strip_prefix-append prefix ss h =
    rw
      (
        prefix_not_empty prefix h,
        starts_with-append prefix (join ss),
        drop-length-append prefix (join ss),
        join_at_boundary ss,
      )
      refl

trim_front-join :
    (s : Bytes) (x : Bytes) → IsSegment s → trim_front is_slash (b'/' ∷ (s ++ x)) ≡ s ++ x
unfolding trim_front
trim_front-join [] x h = absurd (h.0 refl)
trim_front-join (c ∷ s) x (n, (h, hs)) = ground arith

append-is_nil : (x t : Bytes) → t ≢ [] → is_nil (x ++ t) ≡ false
append-is_nil [] [] h = absurd (h refl)
append-is_nil [] (c ∷ t) h = refl
append-is_nil (c ∷ x) t h = refl

-- Where the end of a text stays, the text stays.
trim_back-append :
    (p : ℕ → Bool) (x t : Bytes) → t ≢ [] → trim_back p t ≡ t → trim_back p (x ++ t) ≡ x ++ t
unfolding trim_back
trim_back-append p [] t n h = h
trim_back-append p (c ∷ x) t n h =
    rw (trim_back-append p x t n h, append-is_nil x t n) (ground arith)

trim_back-segment : (s : Bytes) → All IsSegmentByte s → trim_back is_slash s ≡ s
unfolding trim_back
trim_back-segment [] h = refl
trim_back-segment (c ∷ s) (h, hs) = rw (trim_back-segment s hs) (ground arith)

append-ne-nil : (s x : Bytes) → s ≢ [] → s ++ x ≢ []
append-ne-nil [] x h = absurd (h refl)
append-ne-nil (c ∷ s) x h = cc

trim_back-join :
    (s : Bytes) (ss : List Bytes)
    → IsSegment s
    → All IsSegment ss
    → trim_back is_slash (s ++ join ss) ≡ s ++ join ss
trim_back-join s [] h hs = rw append-nil (trim_back-segment s h.1)
trim_back-join s (t ∷ ts) h (k, ks) =
    let rest = trim_back-join t ts k ks in
    trim_back-append is_slash s (join (t ∷ ts)) (cc)
      (trim_back-append is_slash (b'/' ∷ []) (t ++ join ts) (append-ne-nil t (join ts) k.0) rest)

get_lines_one : (s : Bytes) → IsSegment s → get_lines b'/' s ≡ s ∷ []
unfolding get_lines
get_lines_one [] h = absurd (h.0 refl)
get_lines_one (c ∷ []) (n, (h, hs)) = ground arith
get_lines_one (c ∷ d ∷ s) (n, (h, hs)) = let rest = get_lines_one (d ∷ s) (cc, hs) in ground arith

get_lines_more :
    (s x : Bytes) → All IsSegmentByte s → get_lines b'/' (s ++ (b'/' ∷ x)) ≡ s ∷ get_lines b'/' x
unfolding get_lines
get_lines_more [] x h = refl
get_lines_more (c ∷ s) x (h, hs) = rw (get_lines_more s x hs) (ground arith)

get_lines-join :
    (s : Bytes) (ss : List Bytes)
    → IsSegment s
    → All IsSegment ss
    → get_lines b'/' (s ++ join ss) ≡ s ∷ ss
get_lines-join s [] h hs = rw append-nil (get_lines_one s h)
get_lines-join s (t ∷ ts) h (k, ks) =
    get_lines_more s (t ++ join ts) h.1 ∙ ap (◌∷◌ s) (get_lines-join t ts k ks)

keep_nonempty-segments : (ss : List Bytes) → All IsSegment ss → keep_nonempty ss ≡ ss
unfolding keep_nonempty
keep_nonempty-segments [] h = refl
keep_nonempty-segments (s ∷ ss) (h, hs) =
    rw (prefix_not_empty s h.0, keep_nonempty-segments ss hs) refl

split_parts :
    (ss : List Bytes)
    → All IsSegment ss
    → keep_nonempty (get_lines b'/' (trim_back is_slash (trim_front is_slash (join ss)))) ≡ ss
split_parts [] h = unfold trim_front trim_back get_lines keep_nonempty in refl
split_parts (s ∷ ss) (h, hs) =
    rw (trim_front-join s (join ss) h, trim_back-join s ss h hs, get_lines-join s ss h hs)
      (keep_nonempty-segments (s ∷ ss) (h, hs))

find_query :
    (s q : Bytes) → All (λ c. c ≢ b'?') s → find (codes "?") (s ++ (b'?' ∷ q)) ≡ some (length s)
unfolding find starts_with
find_query [] q h = refl
find_query (c ∷ s) q (h, hs) = rw (find_query s q hs) (ground arith)

cut_query-append : (s q : Bytes) → All (λ c. c ≢ b'?') s → cut_query (s ++ (b'?' ∷ q)) ≡ s
unfolding cut_query
cut_query-append s q h = rw (cut_query, find_query s q h) (take-length-append s (b'?' ∷ q))

segments_of_path :
    (prefix : Bytes) (ss : List Bytes) (url : Bytes)
    → prefix ≢ []
    → All IsSegment ss
    → cut_query url ≡ prefix ++ join ss
    → extract_segments prefix url ≡ ss
unfolding extract_segments
segments_of_path prefix ss url n hs e = rw (e, strip_prefix-append prefix ss n) (split_parts ss hs)

-- The segments of a URL that is a prefix followed by segments, each behind a slash, are those
-- segments, whether a query follows or not. The prefix is not empty and has no question mark; the
-- segments are not empty, and have no slash and no question mark.
pub extract_segments-join :
    (prefix : Bytes) (ss : List Bytes) (query : Bytes)
    → IsPlainPrefix prefix
    → All IsSegment ss
    → (extract_segments prefix (prefix ++ join ss) ≡ ss)
      × (extract_segments prefix ((prefix ++ join ss) ++ (b'?' ∷ query)) ≡ ss)
extract_segments-join prefix ss query (n, h) hs =
    let plain_path = All-append (λ c. c ≢ b'?') prefix (join ss) h (join_plain ss hs) in
    (
      segments_of_path prefix ss (prefix ++ join ss) n hs
          (cut_query-plain (prefix ++ join ss) plain_path),
      segments_of_path prefix ss ((prefix ++ join ss) ++ (b'?' ∷ query)) n hs
          (cut_query-append (prefix ++ join ss) query plain_path),
    )
