-- ===== src/Server/Exchange.antt =====
-- A request and its answer, from the bytes of the one to the bytes of the other (src/session.cc,
-- src/request_parser.cc, src/request_dispatcher.cc).
use mathlib.Core.List.{map}
use ucla_bathroom_ratings.Base.{
  length, drop, Bytes, codes, starts_with, find, ℕ, zero, suc, ◌+◌, ◌≤◌, ◌≡◌, refl, sym, ap, ◌∙◌,
  some, List, [], ◌∷◌, ◌++◌, append_assoc, arith,
}
use ucla_bathroom_ratings.Base.Finding.{find-Found}
use ucla_bathroom_ratings.Http.Message.{Response}
use ucla_bathroom_ratings.Http.RequestParser.{parse}
use ucla_bathroom_ratings.Http.ResponseBuilder.{serialize_response}
use ucla_bathroom_ratings.Http.Framing.{blank_line}
use ucla_bathroom_ratings.Http.RequestText.{RequestText, header_text, request_line, message, render}
use ucla_bathroom_ratings.Http.RequestReading.{IsRequestText, parsed, render-IsFramed, parse-render}
use ucla_bathroom_ratings.Server.Location.{LocationConfig}
use ucla_bathroom_ratings.Server.Registry.{Registry}
use ucla_bathroom_ratings.Server.Dispatcher.{create_handler}
use ucla_bathroom_ratings.Server.Session.{
  Endpoint, Session, started, blank_request, Services, handle_request, respond, run, writing,
  received,
}
use ucla_bathroom_ratings.Server.Connection.{buffered, answered, step_complete}
use ucla_bathroom_ratings.Server.Progress.{joined, reads, run-Answered}

length-drop_nil : (n : ℕ) (s : Bytes) → drop n s ≡ [] → length s ≤ n
length-drop_nil zero [] h = omega arith
length-drop_nil zero (c ∷ s) h = ground arith
length-drop_nil (suc n) [] h = omega arith
length-drop_nil (suc n) (c ∷ s) h = omega (arith, length-drop_nil n s h)

-- Two ways to cut a text: what the longer first part has more.
append_split :
    (a b c d : Bytes)
    → a ++ b ≡ c ++ d
    → length c ≤ length a
    → (s : Bytes) × (a ≡ c ++ s) × (d ≡ s ++ b)
append_split a b [] d e le = (a, refl, sym e)
append_split [] b (y ∷ c) d e le = absurd (omega arith)
append_split (x ∷ a) b (y ∷ c) d e le =
    let first : x ≡ y = cc in
    let (s, e1, e2) = append_split a b c d (cc) (omega arith) in (s, rw first (ap (◌∷◌ y) e1), e2)

no_part : (a b : Bytes) → a ++ b ≡ [] → a ≡ []
no_part [] b e = refl
no_part (x ∷ a) b e = absurd (ground arith)

abbrev pub with_body : RequestText → Bytes → RequestText
with_body q body = record q { body = body }

message-append :
    (l : Bytes) (ls : List Bytes) (body : Bytes) → message l ls body ≡ message l ls [] ++ body
message-append l [] body = sym (append_assoc l (codes "\r\n\r\n") body)
message-append l (m ∷ ls) body =
    ap (λ (x : Bytes). l ++ (codes "\r\n" ++ x)) (message-append m ls body)
    ∙ sym (append_assoc l (codes "\r\n" ++ message m ls []) body)

render-append :
    (q : RequestText) (body : Bytes) → render (with_body q body) ≡ render (with_body q []) ++ body
render-append q body = message-append (request_line q.method q.url) (map header_text q.headers) body

with_body-IsRequestText :
    (q : RequestText) (body : Bytes) → IsRequestText q → IsRequestText (with_body q body)
with_body-IsRequestText q body h = record {
  method_word = h.method_word;
  method_allowed = h.method_allowed;
  url_word = h.url_word;
  url_absolute = h.url_absolute;
  headers_well = h.headers_well;
}

-- A beginning of the text of a request that holds a blank line is the text of a request with the
-- same head and a beginning of the body.
head_whole :
    (q : RequestText) (used unused : Bytes) (k : ℕ)
    → IsRequestText q
    → render q ≡ used ++ unused
    → find blank_line used ≡ some k
    → (seen : Bytes) × (used ≡ render (with_body q seen)) × (q.body ≡ seen ++ unused)
head_whole q used unused k h parts found =
    let bare = with_body q [] in
    let f = render-IsFramed bare (with_body-IsRequestText q [] h) in
    let g = find-Found blank_line used k found in
    let gh = find-Found blank_line (render bare) f.head_length f.ends_head in
    let e : some k ≡ some f.head_length =
      sym (g.stable unused)
      ∙ ap (find blank_line) (sym parts ∙ render-append q q.body)
      ∙ gh.stable q.body in
    let same_end : k ≡ f.head_length = ground arith in
    let short = length-drop_nil (f.head_length + 4) (render bare) f.body_behind in
    let fits = g.fits in
    let (seen, e1, e2) =
      append_split used unused (render bare) q.body (sym parts ∙ render-append q q.body)
        (omega arith) in
    (seen, e1 ∙ sym (render-append q seen), e2)

module _ {W : Type 0} (services : Services W) (reg : Registry) (locations : List LocationConfig)
    (peer : Endpoint) where
  -- What the handler that the dispatcher picks makes of the request.
  abbrev pub handled : RequestText → W → W × Response
  handled q w =
      handle_request services reg locations (create_handler reg locations q.url) w
        (parsed q blank_request)

  -- The session that has answered the request.
  abbrev pub served_by : RequestText → W → Session × W
  served_by q w = (
    record (started peer) {
      request_buffer = render q;
      response = serialize_response (some (handled q w).1);
      pending = writing;
    },
    (handled q w).0,
  )

  answered-served :
      (q : RequestText) (w : W)
      → IsRequestText q
      → answered services reg locations
          (buffered (started peer) (render q))
          (parse (render q) blank_request).1
          w
        ≡ served_by q w
  unfolding respond
  answered-served q w h = rw (parse-render q blank_request h refl)

  -- The session has answered the request with that part of its body that was there.
  pub record ServedPart (q : RequestText) (w : W) (cs : List Bytes) : Type 0 where
    pub seen : Bytes
    pub unseen : List Bytes
    pub body_parts : q.body ≡ seen ++ joined unseen
    pub serves_part :
        run services reg locations (reads cs) (started peer) w ≡ served_by (with_body q seen) w

  -- A request whose text comes in reads cut anywhere is answered once its head is there: a new
  -- session runs the handler that the dispatcher picks for the path, once, on a request with
  -- exactly its method, path, version and headers, and sends the serialized response. The body of
  -- that request is what has come of the body by then, which is a beginning of it, and all of it
  -- where it is empty. The request is one of the four methods, an absolute path without white
  -- space, and header lines whose names have no colon and whose values are trimmed.
  -- The callbacks are those that return.
  pub run-ServedPart :
      (q : RequestText) (w : W) (cs : List Bytes)
      → IsRequestText q
      → joined cs ≡ render q
      → ServedPart q w cs
  run-ServedPart q w cs h parts =
      let f = render-IsFramed q h in
      let found : find blank_line (joined cs) ≡ some f.head_length =
        ap (find blank_line) parts ∙ f.ends_head in
      let a =
        run-Answered services reg locations cs (started peer) w f.head_length refl
          (unfold find starts_with in refl) found in
      let (seen, used_text, body_parts) =
        head_whole q a.used (joined a.unused) a.head_length h (sym parts ∙ a.parts) a.ends_head in
      record {
        seen = seen;
        unseen = a.unused;
        body_parts = body_parts;
        serves_part =
            a.answers
            ∙ ap
                (λ (x : Bytes).
                  answered services reg locations (buffered (started peer) x)
                    (parse x blank_request).1 w)
                used_text
            ∙ answered-served (with_body q seen) w (with_body-IsRequestText q seen h);
      }

  -- A request without a body is answered as it was sent, however its text is cut.
  pub run-served :
      (q : RequestText) (w : W) (cs : List Bytes)
      → IsRequestText q
      → q.body ≡ []
      → joined cs ≡ render q
      → run services reg locations (reads cs) (started peer) w ≡ served_by q w
  run-served q w cs h e parts =
      let p = run-ServedPart q w cs h parts in
      let nothing : p.seen ≡ q.body =
        no_part p.seen (joined p.unseen) (sym p.body_parts ∙ e) ∙ sym e in
      p.serves_part ∙ ap (λ (x : Bytes). served_by (with_body q x) w) nothing

  -- A request with any body whose text comes in one read is answered: a new session runs the
  -- handler that the dispatcher picks for the path on exactly that request, once, and sends the
  -- serialized response. The request is one of the four methods, an absolute path without white
  -- space, and header lines whose names have no colon and whose values are trimmed.
  pub one_read-served :
      (q : RequestText) (w : W)
      → IsRequestText q
      → run services reg locations (received (render q) ∷ []) (started peer) w ≡ served_by q w
  unfolding run
  one_read-served q w h =
      step_complete services reg locations (started peer) w (render q)
        (render-IsFramed q h).head_length (render-IsFramed q h).ends_head
      ∙ answered-served q w h
