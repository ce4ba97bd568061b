-- ===== src/Server/Isolation.antt =====
-- The sessions of the server (src/server.cc, src/session.cc) side by side: the events of one do not
-- change what another has read.
use mathlib.Core.Path.{subst}
use ucla_bathroom_ratings.Base.{
  ◌==◌, if◌then◌else◌, Bool-cases, get_elem?, get_elem?-append, Bytes, ℕ, zero, suc, ◌≡◌, refl, sym,
  ap, ◌∙◌, ◌≢◌, inl, inr, true, false, Option, none, some, List, [], ◌∷◌, ◌++◌, arith,
}
use ucla_bathroom_ratings.Server.Location.{LocationConfig}
use ucla_bathroom_ratings.Server.Registry.{Registry}
use ucla_bathroom_ratings.Server.Session.{
  Pending, Session, new_session, start, Event, blank_request, Services, handle_buffer, handle_read,
  step, run, reading, writing, closed, received, read_failed, sent, write_failed,
}
use ucla_bathroom_ratings.Server.Accept.{
  Server, handle_accept, handle_signal, ServerEvent, step_at, throws_at, server_step, server_run,
  running, aborted, failed, connected, accept_done, signalled, at_session,
}
use ucla_bathroom_ratings.Http.RequestParser.{parse}
use ucla_bathroom_ratings.Server.Tally.{ended_stays, ended, before_throw}

-- The events of one session while the server runs its callbacks.
abbrev pub events_of : ℕ → List ServerEvent → List Event
events_of n [] = []
events_of n (accept_done failed ∷ es) = events_of n es
events_of n (accept_done (connected none) ∷ es) = []
events_of n (accept_done (connected (some peer)) ∷ es) = events_of n es
events_of n (signalled true ∷ es) = []
events_of n (signalled false ∷ es) = events_of n es
events_of n (at_session m e ∷ es) = let rest = events_of n es in if m == n then e ∷ rest else rest

-- Two sessions that hold the same bytes and wait for the same.
pub record SameInput (s t : Session) : Type 0 where
  pub buffer_same : s.request_buffer ≡ t.request_buffer
  pub pending_same : s.pending ≡ t.pending

module _ {W : Type 0} (services : Services W) (reg : Registry)
    (locations : List LocationConfig) where
  -- What the session waits for once its buffer was looked at.
  abbrev waits_for : Bytes → Pending
  waits_for bytes = if (parse bytes blank_request).0 then writing else reading

  handle_buffer_lem :
      (s : Session) (w : W)
      → ((handle_buffer services reg locations s w).0.request_buffer ≡ s.request_buffer)
        × ((handle_buffer services reg locations s w).0.pending ≡ waits_for s.request_buffer)
  unfolding handle_buffer
  handle_buffer_lem s w = (ground arith, ground arith)

  handle_read-SameInput :
      (bytes : Bytes) (s t : Session) (w w' : W)
      → SameInput s t
      → SameInput
          (handle_read services reg locations bytes s w).0
          (handle_read services reg locations bytes t w').0
  unfolding handle_read
  handle_read-SameInput bytes s t w w' h =
      let longer : s.request_buffer ++ bytes ≡ t.request_buffer ++ bytes =
        ap (λ x. x ++ bytes) h.buffer_same in
      let a = handle_buffer_lem (record s { request_buffer = s.request_buffer ++ bytes }) w in
      let b = handle_buffer_lem (record t { request_buffer = t.request_buffer ++ bytes }) w' in
      record {
        buffer_same = a.0 ∙ longer ∙ sym b.0;
        pending_same = a.1 ∙ ap waits_for longer ∙ sym b.1;
      }

  step-SameInput :
      (p : Pending) (e : Event) (s t : Session) (w w' : W)
      → SameInput s t
      → SameInput (step services reg locations p e s w).0 (step services reg locations p e t w').0
  unfolding step handle_read handle_buffer
  step-SameInput reading (received bytes) s t w w' h = handle_read-SameInput bytes s t w w' h
  step-SameInput reading read_failed s t w w' h = record {
    buffer_same = h.buffer_same;
    pending_same = refl;
  }
  step-SameInput reading sent s t w w' h = h
  step-SameInput reading write_failed s t w w' h = h
  step-SameInput writing sent s t w w' h = record {
    buffer_same = h.buffer_same;
    pending_same = refl;
  }
  step-SameInput writing write_failed s t w w' h = record {
    buffer_same = h.buffer_same;
    pending_same = refl;
  }
  step-SameInput writing (received bytes) s t w w' h = h
  step-SameInput writing read_failed s t w w' h = h
  step-SameInput closed (received bytes) s t w w' h = h
  step-SameInput closed read_failed s t w w' h = h
  step-SameInput closed sent s t w w' h = h
  step-SameInput closed write_failed s t w w' h = h

  abbrev steps : Event → Session → W → Session × W
  steps e s w = step services reg locations s.pending e s w

  steps-SameInput :
      (e : Event) (s t : Session) (w w' : W)
      → SameInput s t
      → SameInput (steps e s w).0 (steps e t w').0
  steps-SameInput e s t w w' h =
      subst (λ (p : Pending). SameInput (steps e s w).0 (step services reg locations p e t w').0)
        h.pending_same (step-SameInput s.pending e s t w w' h)

  run-SameInput :
      (es : List Event) (s t : Session) (w w' : W)
      → SameInput s t
      → SameInput (run services reg locations es s w).0 (run services reg locations es t w').0
  unfolding run
  run-SameInput [] s t w w' h = h
  run-SameInput (e ∷ es) s t w w' h =
      run-SameInput es (steps e s w).0 (steps e t w').0 (steps e s w).1 (steps e t w').1
        (steps-SameInput e s t w w' h)

  step_at-same :
      (n : ℕ) (e : Event) (ss : List Session) (s : Session) (w : W)
      → get_elem? ss n ≡ some s
      → get_elem? (step_at services reg locations n e ss w).0 n
        ≡ some (step services reg locations s.pending e s w).0
  unfolding step_at
  step_at-same n e [] s w h = ground arith
  step_at-same zero e (s' ∷ ss) s w h = ground arith
  step_at-same (suc n) e (s' ∷ ss) s w h = step_at-same n e ss s w h

  step_at-other :
      (m n : ℕ) (e : Event) (ss : List Session) (w : W)
      → ¬ m ≡ n
      → get_elem? (step_at services reg locations m e ss w).0 n ≡ get_elem? ss n
  unfolding step_at
  step_at-other m n e [] w d = refl
  step_at-other zero zero e (s ∷ ss) w d = ground arith
  step_at-other zero (suc n) e (s ∷ ss) w d = refl
  step_at-other (suc m) zero e (s ∷ ss) w d = refl
  step_at-other (suc m) (suc n) e (s ∷ ss) w d = step_at-other m n e ss w (λ same. d (ap suc same))

  -- The session with a given number after some events of the server, beside a session that ran
  -- alone.
  pub record RanAlone (n : ℕ) (v : Server) (alone : Session) : Type 0 where
    pub session : Session
    pub found : get_elem? v.sessions n ≡ some session
    pub input_same : SameInput session alone

  alone_stays :
      (es : List ServerEvent) (v : Server) (n : ℕ) (s t : Session) (w : W)
      → v.status ≢ running
      → get_elem? v.sessions n ≡ some s
      → SameInput s t
      → RanAlone n (server_run services reg locations es v w).0 t
  alone_stays es v n s t w ended h k =
      rw (ended_stays services reg locations es v w ended)
        (record { session = s; found = h; input_same = k })

  abbrev pub heard : List ServerEvent → Server → W → List ServerEvent
  heard es v w = before_throw services reg locations es v w

  -- The server while it runs.
  abbrev up : List Session → Option Session → Server
  up ss a = record { sessions = ss; accepting = a; status = running }

  up-RanAlone :
      (es : List ServerEvent) (ss : List Session) (c : Session) (n : ℕ) (s t : Session) (w w' : W)
      → get_elem? ss n ≡ some s
      → SameInput s t
      → RanAlone n
          (server_run services reg locations es (up ss (some c)) w).0
          (run services reg locations (events_of n (heard es (up ss (some c)) w)) t w').0
  unfolding server_run server_step run step handle_accept handle_signal before_throw
  up-RanAlone [] ss c n s t w w' h k = record { session = s; found = h; input_same = k }
  up-RanAlone (accept_done failed ∷ es) ss c n s t w w' h k =
      up-RanAlone es ss new_session n s t w w' h k
  up-RanAlone (accept_done (connected none) ∷ es) ss c n s t w w' h k =
      alone_stays es _ n s t w (λ e. cc) h k
  up-RanAlone (accept_done (connected (some peer)) ∷ es) ss c n s t w w' h k =
      up-RanAlone es (ss ++ (start peer c ∷ [])) new_session n s t w w'
        (get_elem?-append ss (start peer c ∷ []) n s h) k
  up-RanAlone (signalled true ∷ es) ss c n s t w w' h k = alone_stays es _ n s t w (λ e. cc) h k
  up-RanAlone (signalled false ∷ es) ss c n s t w w' h k = up-RanAlone es ss c n s t w w' h k
  up-RanAlone (at_session m e ∷ es) ss c n s t w w' h k =
      let (ss', w'') = step_at services reg locations m e ss w in
      elim (Bool-cases (throws_at services reg locations m e ss w)) [
        | inl thrown ↦
            rw (thrown, server_run, before_throw)
              (alone_stays es (record (up ss (some c)) { status = aborted }) n s t w (λ e. cc) h k)
        | inr good ↦
            rw (good, server_run, before_throw)
              (elim (Bool-cases (m == n)) [
                | inl b ↦
                    let e1 : m ≡ n = ground arith in
                    rw b (
                      up-RanAlone es ss' c n (steps e s w).0 (steps e t w').0 w'' (steps e t w').1
                        (rw e1 (step_at-same n e ss s w h)) (steps-SameInput e s t w w' k))
                | inr b ↦ rw b (
                    up-RanAlone es ss' c n s t w'' w'
                      (step_at-other m n e ss w (λ same. ground arith) ∙ h) k)
              ])
      ]

  -- A session is not disturbed by the others: where the server runs and waits for a connection,
  -- and session `n` is there, then after any events of the server, in any order, it is there,
  -- holds the bytes and waits for what it would hold and wait for if it alone had run its own
  -- events up to the end of the callbacks, which the first one that throws is as well, from any
  -- state of the world.
  pub server_run-isolated :
      (es : List ServerEvent) (v : Server) (c : Session) (n : ℕ) (s : Session) (w alone : W)
      → v.status ≡ running
      → v.accepting ≡ some c
      → get_elem? v.sessions n ≡ some s
      → RanAlone n
          (server_run services reg locations es v w).0
          (run services reg locations (events_of n (heard es v w)) s alone).0
  server_run-isolated es v c n s w alone r a h =
      subst
        (λ (u : Server).
          RanAlone n (server_run services reg locations es u w).0
            (run services reg locations (events_of n (heard es u w)) s alone).0)
        (λ i. record { sessions = v.sessions; accepting = sym a i; status = sym r i })
        (up-RanAlone es v.sessions c n s s w alone h
          (record { buffer_same = refl; pending_same = refl }))
