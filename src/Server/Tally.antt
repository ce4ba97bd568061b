-- ===== src/Server/Tally.antt =====
-- What the events of the server come to, and the server once its callbacks have ended
-- (src/server.cc, src/server_main.cc).
use ucla_bathroom_ratings.Base.{
  if◌then◌else◌, length, ℕ, zero, suc, ◌+◌, ◌≡◌, refl, ap, ◌∙◌, ◌≢◌, Bool, true, false, Option,
  none, some, List, [], ◌∷◌, arith,
}
use ucla_bathroom_ratings.Server.Location.{LocationConfig}
use ucla_bathroom_ratings.Server.Registry.{Registry}
use ucla_bathroom_ratings.Server.Session.{Session, new_session, Event, Services}
use ucla_bathroom_ratings.Server.Accept.{
  Status, Server, ServerEvent, step_at, throws_at, server_step, server_run, running, stopped,
  aborted, failed, connected, accept_done, signalled, at_session,
}

-- How many connections were accepted, and whether callbacks still run, behind some events.
pub record Tally : Type 0 where
  pub accepted : ℕ
  pub status : Status

abbrev one_more : Tally → Tally
one_more t = record t { accepted = suc t.accepted }

-- The first signal without an error and the first peer that has gone end the callbacks.
abbrev pub tally : List ServerEvent → Tally
tally [] = record { accepted = 0; status = running }
tally (accept_done failed ∷ es) = tally es
tally (accept_done (connected none) ∷ es) = record { accepted = 0; status = aborted }
tally (accept_done (connected (some peer)) ∷ es) = one_more (tally es)
tally (signalled true ∷ es) = record { accepted = 0; status = stopped }
tally (signalled false ∷ es) = tally es
tally (at_session n e ∷ es) = tally es

-- What waits for a connection: a new session, but none where the program was aborted.
abbrev pub left_waiting : Status → Option Session
left_waiting running = some new_session
left_waiting stopped = some new_session
left_waiting aborted = none

-- The server behind events with a given tally: it runs or has ended as the tally says, it has as
-- many more sessions as the tally counts, and unless it was aborted a new session waits for the
-- next connection.
pub record IsTallied (t : Tally) (v v' : Server) : Type 0 where
  pub status_told : v'.status ≡ t.status
  pub sessions_told : length v'.sessions ≡ length v.sessions + t.accepted
  pub waits : v'.accepting ≡ left_waiting t.status

-- The server while it runs.
abbrev pub up : List Session → Server
up ss = record { sessions = ss; accepting = some new_session; status = running }

module _ {W : Type 0} (services : Services W) (reg : Registry)
    (locations : List LocationConfig) where
  pub length-step_at :
      (n : ℕ) (e : Event) (ss : List Session) (w : W)
      → length (step_at services reg locations n e ss w).0 ≡ length ss
  unfolding step_at
  length-step_at n e [] w = refl
  length-step_at zero e (s ∷ ss) w = refl
  length-step_at (suc n) e (s ∷ ss) w = omega (arith, length-step_at n e ss w)

  abbrev pub continue : List ServerEvent → Server × W → Server × W
  continue es x = server_run services reg locations es x.0 x.1

  abbrev pub run_step : ServerEvent → Server → W → Server × W
  run_step e v w = server_step services reg locations running e v w

  pub server_run_cons :
      (e : ServerEvent) (es : List ServerEvent) (v : Server) (w : W)
      → v.status ≡ running
      → server_run services reg locations (e ∷ es) v w ≡ continue es (run_step e v w)
  unfolding server_run
  server_run_cons e es v w h =
      ap (λ (p : Status). continue es (server_step services reg locations p e v w)) h

  step_ended :
      (e : ServerEvent) (v : Server) (w : W) (p : Status)
      → p ≢ running
      → server_step services reg locations p e v w ≡ (v, w)
  unfolding server_step
  step_ended e v w running h = absurd (h refl)
  step_ended (accept_done r) v w stopped h = refl
  step_ended (signalled good) v w stopped h = refl
  step_ended (at_session n e) v w stopped h = refl
  step_ended (accept_done r) v w aborted h = refl
  step_ended (signalled good) v w aborted h = refl
  step_ended (at_session n e) v w aborted h = refl

  pub ended_stays :
      (es : List ServerEvent) (v : Server) (w : W)
      → v.status ≢ running
      → server_run services reg locations es v w ≡ (v, w)
  unfolding server_run
  ended_stays [] v w h = refl
  ended_stays (e ∷ es) v w h = ap (continue es) (step_ended e v w v.status h) ∙ ended_stays es v w h

  pub ended :
      (es : List ServerEvent) (p : Status)
      → p ≢ running
      → (ss : List Session) (w : W)
      → IsTallied
          (record { accepted = 0; status = p })
          (up ss)
          (server_run services reg locations es
            (record { sessions = ss; accepting = left_waiting p; status = p })
            w).0
  ended es p h ss w =
      rw (ended_stays es (record { sessions = ss; accepting = left_waiting p; status = p }) w h)
        (record { status_told = refl; sessions_told = omega arith; waits = refl })

  -- A callback that runs throws.
  event_throws : Status → ServerEvent → Server → W → Bool
  event_throws running (at_session n e) v w = throws_at services reg locations n e v.sessions w
  event_throws _ e v w = false

  -- The events in front of the first one whose callback throws.
  unfoldable pub before_throw : List ServerEvent → Server → W → List ServerEvent
  unfolding event_throws
  before_throw [] v w = []
  before_throw (e ∷ es) v w =
      let (v', w') = server_step services reg locations v.status e v w in
      let rest = before_throw es v' w' in if event_throws v.status e v w then [] else e ∷ rest

  pub heard_ended :
      (es : List ServerEvent) (p : Status)
      → p ≢ running
      → (ss : List Session) (a : Option Session) (w : W)
      → before_throw es (record { sessions = ss; accepting = a; status = p }) w ≡ es
  unfolding before_throw server_step
  heard_ended [] p h ss a w = refl
  heard_ended (e ∷ es) running h ss a w = absurd (h refl)
  heard_ended (accept_done r ∷ es) stopped h ss a w =
      ap (λ x. accept_done r ∷ x) (heard_ended es stopped h ss a w)
  heard_ended (signalled good ∷ es) stopped h ss a w =
      ap (λ x. signalled good ∷ x) (heard_ended es stopped h ss a w)
  heard_ended (at_session n e ∷ es) stopped h ss a w =
      ap (λ x. at_session n e ∷ x) (heard_ended es stopped h ss a w)
  heard_ended (accept_done r ∷ es) aborted h ss a w =
      ap (λ x. accept_done r ∷ x) (heard_ended es aborted h ss a w)
  heard_ended (signalled good ∷ es) aborted h ss a w =
      ap (λ x. signalled good ∷ x) (heard_ended es aborted h ss a w)
  heard_ended (at_session n e ∷ es) aborted h ss a w =
      ap (λ x. at_session n e ∷ x) (heard_ended es aborted h ss a w)
