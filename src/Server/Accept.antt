-- ===== src/Server/Accept.antt =====
-- `server` (src/server.cc, include/server.h) and `main` (src/server_main.cc): the accept loop and
-- the sessions that it starts, over the events that Asio reports. The threads of `main` run
-- callbacks side by side; a session waits for one callback at a time, and each callback is one
-- step here.
use ucla_bathroom_ratings.Base.{
  if◌then◌else◌, Bytes, ℕ, zero, suc, Bool, false, not, Option, none, some, List, [], ◌∷◌, ◌++◌,
}
use ucla_bathroom_ratings.Base.Int.{ℤ, pos}
use ucla_bathroom_ratings.Server.Location.{LocationConfig}
use ucla_bathroom_ratings.Server.Registry.{Registry}
use ucla_bathroom_ratings.Server.Startup.{ServerInitResult, is_valid, initialize_from_args}
use ucla_bathroom_ratings.Server.Session.{
  Endpoint, Session, new_session, start, Event, Services, step_throws, step,
}

-- Whether the threads of `main` run callbacks: they do, or `io_service.stop` lets them return, or
-- `std::terminate` ended the program.
pub data Status : Type 0 where
  running stopped aborted : Status

-- The sessions that were started, the first one first, and the one that waits for its connection.
pub record Server : Type 0 where
  pub sessions : List Session
  pub accepting : Option Session
  pub status : Status

-- `start_accept`.
abbrev pub start_accept : Server → Server
start_accept v = record v { accepting = some new_session }

-- The server once its constructor has run.
abbrev pub new_server : Server
new_server = start_accept (record { sessions = []; accepting = none; status = running })

-- What an accept comes to: an error, or a connection with what `remote_endpoint` tells of its peer,
-- which is `none` where it throws since the peer has gone.
pub data AcceptResult : Type 0 where
  failed : AcceptResult
  connected : Option Endpoint → AcceptResult

-- `handle_accept`. Nothing catches what `remote_endpoint` throws on a thread of `main`.
unfoldable pub handle_accept : Option Session → AcceptResult → Server → Server
handle_accept none r v = v
handle_accept (some s) failed v = start_accept v
handle_accept (some s) (connected none) v = record v { accepting = none; status = aborted }
handle_accept (some s) (connected (some peer)) v =
    start_accept (record v { sessions = v.sessions ++ (start peer s ∷ []) })

-- The callback of `signals.async_wait`, with whether it comes without an error.
unfoldable pub handle_signal : Bool → Server → Server
handle_signal good v = if good then record v { status = stopped } else v

-- What Asio reports: how an accept ended, a signal, or an event of the session with a given number.
pub data ServerEvent : Type 0 where
  accept_done : AcceptResult → ServerEvent
  signalled : Bool → ServerEvent
  at_session : ℕ → Event → ServerEvent

module _ {W : Type 0} (services : Services W) (reg : Registry)
    (locations : List LocationConfig) where
  -- An event of a session that is not there does not occur, and changes nothing.
  unfoldable pub step_at : ℕ → Event → List Session → W → List Session × W
  step_at n e [] w = ([], w)
  step_at zero e (s ∷ ss) w =
      let (s', w') = step services reg locations s.pending e s w in (s' ∷ ss, w')
  step_at (suc n) e (s ∷ ss) w = let (ss', w') = step_at n e ss w in (s ∷ ss', w')

  -- Whether the callback of an event of session `n` throws.
  unfoldable pub throws_at : ℕ → Event → List Session → W → Bool
  throws_at n e [] w = false
  throws_at zero e (s ∷ ss) w = step_throws services reg locations s.pending e s w
  throws_at (suc n) e (s ∷ ss) w = throws_at n e ss w

  -- A callback runs while the threads do. Nothing on a thread of `main` catches what one throws.
  unfoldable pub server_step : Status → ServerEvent → Server → W → Server × W
  server_step running (accept_done r) v w = (handle_accept v.accepting r v, w)
  server_step running (signalled good) v w = (handle_signal good v, w)
  server_step running (at_session n e) v w =
      let (ss, w') = step_at n e v.sessions w in
      if throws_at n e v.sessions w
      then (record v { status = aborted }, w)
      else (record v { sessions = ss }, w')
  server_step _ e v w = (v, w)

  unfoldable pub server_run : List ServerEvent → Server → W → Server × W
  server_run [] v w = (v, w)
  server_run (e ∷ es) v w = let (v', w') = server_step v.status e v w in server_run es v' w'

-- What `main` does: it ends with an exit code, or serves a port until the threads end.
pub data MainResult : Type 0 where
  exits : ℕ → MainResult
  serves : ℤ → List LocationConfig → MainResult

unfoldable pub main_of : ServerInitResult → MainResult
main_of r =
    if not (is_valid r)
    then exits 1
    else elim r.dispatcher [ none ↦ exits 1 | some locations ↦ serves r.port locations ]

-- `main`, with the default port 8080, on the number of its arguments and the configuration's text.
unfoldable pub run_main : ℕ → Option Bytes → Registry → Registry × MainResult
unfolding main_of
run_main argc file reg =
    let (reg', r) = initialize_from_args argc file (pos 8080) reg in (reg', main_of r)

-- How the program ends once the threads have: `return 0` behind the joins, or an abort.
pub data Ending : Type 0 where
  returns : ℕ → Ending
  aborts : Ending

unfoldable pub ending_of : Status → Option Ending
ending_of running = none
ending_of stopped = some (returns 0)
ending_of aborted = some aborts

-- The rest of `main`, with whether the acceptor opens on the port and with the number of threads
-- that `hardware_concurrency` gives. Where the acceptor does not open, the constructor of the
-- server throws, and `main` logs what it catches and returns; where the number is 0, which stands
-- for one that is not known, there is no thread to wait for, and `main` returns as well.
unfoldable pub serve :
    {W : Type 0}
    → Services W
    → Registry
    → MainResult
    → Bool
    → ℕ
    → List ServerEvent
    → W
    → Option Ending × W
unfolding ending_of
serve services reg (exits code) opened threads es w = (some (returns code), w)
serve services reg (serves port locations) opened zero es w = (some (returns 0), w)
serve services reg (serves port locations) opened (suc threads) es w =
    let (v, w') = server_run services reg locations es new_server w in
    if opened then (ending_of v.status, w') else (some (returns 0), w)

-- `main` until it ends, over the events that Asio reports to its threads.
unfoldable pub main :
    {W : Type 0}
    → Services W
    → ℕ
    → Option Bytes
    → Registry
    → Bool
    → ℕ
    → List ServerEvent
    → W
    → Option Ending × W
unfolding serve
main services argc file reg opened threads es w =
    let (reg', m) = run_main argc file reg in serve services reg' m opened threads es w
