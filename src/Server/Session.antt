-- ===== src/Server/Session.antt =====
-- `session` (src/session.cc, include/session.h): the callbacks of one connection, as a step on its
-- state and on the state `W` of the world that the handlers change.
use ucla_bathroom_ratings.Store.Json.{is_valid_json}
use ucla_bathroom_ratings.Base.{
  if◌then◌else◌, Bytes, codes, ℕ, Bool, true, false, not, ◌&&◌, none, some, List, [], ◌∷◌, ◌++◌,
}
use ucla_bathroom_ratings.Base.Int.{ℤ, negsuc}
use ucla_bathroom_ratings.Http.Message.{Request, Response}
use ucla_bathroom_ratings.Http.RequestParser.{parse}
use ucla_bathroom_ratings.Http.ResponseBuilder.{bad_request, serialize_response}
use ucla_bathroom_ratings.Store.Interface.{EntityStore}
use ucla_bathroom_ratings.Handler.File.{FileSystem, returned}
use ucla_bathroom_ratings.Handler.File
use ucla_bathroom_ratings.Handler.Api
use ucla_bathroom_ratings.Handler.Fixed.{handle_echo, handle_health, handle_not_found, handle_sleep}
use ucla_bathroom_ratings.Server.Location.{LocationConfig}
use ucla_bathroom_ratings.Server.Registry.{
  RequestHandler, Registry, echo_handler, not_found_handler, health_handler, sleep_handler,
  file_handler, api_handler,
}
use ucla_bathroom_ratings.Server.Dispatcher.{create_handler}

-- What the session waits for: `async_read_some`, `async_write`, or nothing after `delete this`.
pub data Pending : Type 0 where
  reading writing closed : Pending

-- What `remote_endpoint` tells: the address as text, and the port.
pub record Endpoint : Type 0 where
  pub address : Bytes
  pub port_number : ℤ

pub record Session : Type 0 where
  pub ip : Bytes
  pub port : ℤ
  pub request_buffer : Bytes
  pub response : Bytes
  pub pending : Pending

-- The constructor: a session that was not started waits for nothing.
abbrev pub new_session : Session
new_session = record {
  ip = [];
  port = negsuc 0;
  request_buffer = [];
  response = [];
  pending = closed;
}

-- `start`, for the peer that the socket is connected to.
abbrev pub start : Endpoint → Session → Session
start peer s = record s { ip = peer.address; port = peer.port_number; pending = reading }

abbrev pub started : Endpoint → Session
started peer = start peer new_session

-- The size of `data_`, into which a read goes.
abbrev pub max_length : ℕ
max_length = 1024

-- What Asio reports: bytes or an error behind a read, success or an error behind a write. A read
-- brings at most `max_length` bytes; here it may bring any number.
pub data Event : Type 0 where
  received : Bytes → Event
  read_failed sent write_failed : Event

abbrev pub blank_request : Request
blank_request = record {
  is_valid = false;
  raw_request = [];
  method = [];
  url = [];
  http_version = [];
  headers = [];
  body = [];
}

-- The world of the handlers: where Boost.JSON sets an error, the files, and the store at each
-- data path.
pub record Services (W : Type 0) : Type 0 where
  pub json_error : Bytes → Bool
  pub files : W → FileSystem
  pub store : Bytes → EntityStore W

module _ {W : Type 0} (services : Services W) (reg : Registry)
    (locations : List LocationConfig) where
  -- `handle_request` of each handler, where it does not throw.
  unfoldable pub handle_request : RequestHandler → W → Request → W × Response
  handle_request echo_handler w r = (w, handle_echo r)
  handle_request not_found_handler w r = (w, handle_not_found r)
  handle_request health_handler w r = (w, handle_health r)
  handle_request sleep_handler w r = (w, handle_sleep r)
  handle_request (file_handler base prefix) w r =
      (w, File.returned (services.files w) (File.handle_request (services.files w) base prefix r))
  handle_request (api_handler data_path prefix) w r =
      Api.handle_request (is_valid_json services.json_error) (services.store data_path) prefix w r

  -- Whether a handler throws instead.
  unfoldable pub throws : RequestHandler → W → Request → Bool
  throws (file_handler base prefix) w r =
      elim (File.handle_request (services.files w) base prefix r) [
        | none ↦ true
        | some answer ↦ false
      ]
  throws _ w r = false

  -- The response to a complete request.
  unfoldable pub respond : W → Request → W × Response
  respond w r =
      if not r.is_valid
      then (w, bad_request (codes "400 Bad Request"))
      else handle_request (create_handler reg locations r.url) w r

  abbrev pub send : Session → Bytes → Session
  send s message = record s { response = message; pending = writing }

  -- `handle_read` without an error, once the bytes are in the buffer.
  unfoldable pub handle_buffer : Session → W → Session × W
  handle_buffer s w =
      let (complete, r) = parse s.request_buffer blank_request in
      let (w', answer) = respond w r in
      if complete
      then (send s (serialize_response (some answer)), w')
      else (record s { pending = reading }, w)

  unfoldable pub handle_read : Bytes → Session → W → Session × W
  handle_read bytes s w = handle_buffer (record s { request_buffer = s.request_buffer ++ bytes }) w

  -- Whether the callback of an event throws. The server is aborted then, and runs no `step`.
  unfoldable pub step_throws : Pending → Event → Session → W → Bool
  step_throws reading (received bytes) s w =
      let (complete, r) = parse (s.request_buffer ++ bytes) blank_request in
      complete && (r.is_valid && throws (create_handler reg locations r.url) w r)
  step_throws _ _ s w = false

  -- One event, for a callback that does not throw. An event that the session does not wait for does not occur, and changes nothing.
  unfoldable pub step : Pending → Event → Session → W → Session × W
  step reading (received bytes) s w = handle_read bytes s w
  step reading read_failed s w = (record s { pending = closed }, w)
  step writing sent s w = (record s { pending = reading }, w)
  step writing write_failed s w = (record s { pending = closed }, w)
  step _ _ s w = (s, w)

  unfoldable pub run : List Event → Session → W → Session × W
  run [] s w = (s, w)
  run (e ∷ es) s w = let (s', w') = step s.pending e s w in run es s' w'
