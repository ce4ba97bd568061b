-- ===== src/Server/Connection.antt =====
-- One connection over time: the reads of `session` (src/session.cc) and what they answer.
use ucla_bathroom_ratings.Base.Finding.{find-Found}
use ucla_bathroom_ratings.Base.{
  Bytes, find, ℕ, ◌≡◌, refl, sym, ap, ◌∙◌, Bool, none, some, List, [], ◌∷◌, ◌++◌, append_assoc,
}
use ucla_bathroom_ratings.Http.Message.{Request}
use ucla_bathroom_ratings.Http.RequestParser.{parse}
use ucla_bathroom_ratings.Http.ResponseBuilder.{serialize_response}
use ucla_bathroom_ratings.Http.Heads.{SameHead}
use ucla_bathroom_ratings.Http.Framing.{
  blank_line, parse_complete, parse-incomplete, parse-append-SameHead,
}
use ucla_bathroom_ratings.Server.Location.{LocationConfig}
use ucla_bathroom_ratings.Server.Registry.{Registry}
use ucla_bathroom_ratings.Server.Session.{
  Pending, Session, Event, blank_request, Services, respond, send, handle_buffer, handle_read, step,
  run, reading, closed, received, read_failed, sent, write_failed,
}

-- The session with more bytes in its buffer.
abbrev pub buffered : Session → Bytes → Session
buffered s bytes = record s { request_buffer = s.request_buffer ++ bytes }

module _ {W : Type 0} (services : Services W) (reg : Registry)
    (locations : List LocationConfig) where
  handle_buffer_incomplete :
      (s : Session) (w : W)
      → find blank_line s.request_buffer ≡ none
      → handle_buffer services reg locations s w ≡ (record s { pending = reading }, w)
  unfolding handle_buffer
  handle_buffer_incomplete s w e = rw (parse-incomplete s.request_buffer blank_request e)

  -- While no blank line has arrived the session sends nothing, leaves the world alone and reads on.
  pub step_incomplete :
      (s : Session) (w : W) (bytes : Bytes)
      → find blank_line (s.request_buffer ++ bytes) ≡ none
      → step services reg locations reading (received bytes) s w
        ≡ (record (buffered s bytes) { pending = reading }, w)
  unfolding step handle_read
  step_incomplete s w bytes e = handle_buffer_incomplete (buffered s bytes) w e

  -- The answer to the request that the buffer holds.
  abbrev pub answered : Session → Request → W → Session × W
  answered s r w = (
    send services reg locations s
        (serialize_response (some (respond services reg locations w r).1)),
    (respond services reg locations w r).0,
  )

  pub handle_buffer_complete :
      (s : Session) (w : W) (n : ℕ)
      → find blank_line s.request_buffer ≡ some n
      → handle_buffer services reg locations s w
        ≡ answered s (parse s.request_buffer blank_request).1 w
  unfolding handle_buffer
  handle_buffer_complete s w n e =
      rw (ap (λ (p : Bool × Request). p.0) (parse_complete s.request_buffer n blank_request e))

  -- Once the blank line has arrived the session answers the request in the buffer.
  pub step_complete :
      (s : Session) (w : W) (bytes : Bytes) (n : ℕ)
      → find blank_line (s.request_buffer ++ bytes) ≡ some n
      → step services reg locations reading (received bytes) s w
        ≡ answered (buffered s bytes) (parse (s.request_buffer ++ bytes) blank_request).1 w
  unfolding step handle_read
  step_complete s w bytes n e = handle_buffer_complete (buffered s bytes) w n e

  two_reads :
      (s : Session) (w : W) (a b : Bytes)
      → s.pending ≡ reading
      → step services reg locations reading
          (received b)
          (record (buffered s a) { pending = reading })
          w
        ≡ step services reg locations reading (received (a ++ b)) s w
  unfolding step handle_read
  two_reads s w a b p =
      ap
        (λ (x : Bytes).
          handle_buffer services reg locations (record s { request_buffer = x; pending = reading })
            w)
        (append_assoc s.request_buffer a b)
      ∙ ap
          (λ (x : Pending).
            handle_buffer services reg locations
              (record s { request_buffer = s.request_buffer ++ (a ++ b); pending = x }) w)
          (sym p)

  step_closed :
      (e : Event) (s : Session) (w : W) → step services reg locations closed e s w ≡ (s, w)
  unfolding step
  step_closed (received bytes) s w = refl
  step_closed read_failed s w = refl
  step_closed sent s w = refl
  step_closed write_failed s w = refl

  abbrev pub after : List Event → Session × W → Session × W
  after es x = run services reg locations es x.0 x.1

  pub run_cons :
      (e : Event) (es : List Event) (s : Session) (w : W) (p : Pending)
      → s.pending ≡ p
      → run services reg locations (e ∷ es) s w ≡ after es (step services reg locations p e s w)
  unfolding run
  run_cons e es s w p h = ap (λ (q : Pending). after es (step services reg locations q e s w)) h

  -- How the bytes of a request are cut into reads does not matter to a session that waits for a
  -- read, as long as what it holds after the first read has no blank line: two reads give the same
  -- session and the same world as one read of both, whatever follows.
  -- The callbacks are those that return.
  pub run_split :
      (s : Session) (w : W) (a b : Bytes) (es : List Event)
      → s.pending ≡ reading
      → find blank_line (s.request_buffer ++ a) ≡ none
      → run services reg locations (received a ∷ received b ∷ es) s w
        ≡ run services reg locations (received (a ++ b) ∷ es) s w
  run_split s w a b es p e =
      run_cons (received a) (received b ∷ es) s w reading p
      ∙ ap (after (received b ∷ es)) (step_incomplete s w a e)
      ∙ run_cons (received b) es (record (buffered s a) { pending = reading }) w reading refl
      ∙ ap (after es) (two_reads s w a b p)
      ∙ sym (run_cons (received (a ++ b)) es s w reading p)

  -- What a later read on a connection answers, where the buffer held a whole request before.
  pub record Repeats (s : Session) (w : W) (bytes : Bytes) : Type 0 where
    pub repeated : Request
    pub same_head : SameHead (parse s.request_buffer blank_request).1 repeated
    pub answers :
        step services reg locations reading (received bytes) s w
        ≡ answered (buffered s bytes) repeated w

  -- The buffer is never cleared. Where it holds a whole request already, as after a first answer,
  -- each later read is answered at once, by a request with the validity, method, URL, version and
  -- headers of that first one, whatever bytes the client has sent.
  -- The callbacks are those that return.
  pub step-Repeats :
      (s : Session) (w : W) (bytes : Bytes) (n : ℕ)
      → find blank_line s.request_buffer ≡ some n
      → Repeats s w bytes
  step-Repeats s w bytes n e = record {
    repeated = (parse (s.request_buffer ++ bytes) blank_request).1;
    same_head = parse-append-SameHead s.request_buffer bytes n blank_request e;
    answers = step_complete s w bytes n ((find-Found blank_line s.request_buffer n e).stable bytes);
  }

  -- A session that was deleted does nothing more.
  pub run_closed :
      (es : List Event) (s : Session) (w : W)
      → s.pending ≡ closed
      → run services reg locations es s w ≡ (s, w)
  run_closed [] s w h = unfold run in refl
  run_closed (e ∷ es) s w h =
      run_cons e es s w closed h ∙ ap (after es) (step_closed e s w) ∙ run_closed es s w h
