-- ===== src/Server/Answers.antt =====
-- Every message that a session sends (src/session.cc), whichever handler answers.
use mathlib.Core.List.{Mem, mem-cons_self, mem-cons}
use mathlib.Core.Logic.Or
use mathlib.Core.Path.{subst}
use ucla_bathroom_ratings.Store.Json.{is_valid_json}
use ucla_bathroom_ratings.Base.{
  if◌then◌else◌, length, Bytes, codes, find, ℕ, ◌≡◌, refl, sym, ap, Bool, true, false, not, some,
  List, ◌++◌,
}
use ucla_bathroom_ratings.Base.Decimal.{to_decimal}
use ucla_bathroom_ratings.Http.Message.{Request, Response}
use ucla_bathroom_ratings.Http.RequestParser.{parse}
use ucla_bathroom_ratings.Http.ResponseBuilder.{
  format_response, plain, bad_request, serialize, serialize_response,
}
use ucla_bathroom_ratings.Http.Framing.{blank_line}
use ucla_bathroom_ratings.Http.Serialized.{IsFramed, serialize-IsFramed}
use ucla_bathroom_ratings.Handler.Answers.{
  IsBuilt, format_response-IsBuilt, api-IsBuilt, file-IsBuilt,
}
use ucla_bathroom_ratings.Server.Location.{LocationConfig}
use ucla_bathroom_ratings.Server.Registry.{
  RequestHandler, Registry, echo_handler, not_found_handler, health_handler, sleep_handler,
  file_handler, api_handler,
}
use ucla_bathroom_ratings.Server.Dispatcher.{create_handler}
use ucla_bathroom_ratings.Server.Session.{
  Session, blank_request, Services, handle_request, respond, handle_buffer,
}
use ucla_bathroom_ratings.Server.Connection.{handle_buffer_complete}

-- A message whose head ends where its first blank line does, and whose headers tell the length of
-- the body behind.
pub record IsAnswer (message : Bytes) (a : Response) : Type 0 where
  pub serialized : message ≡ serialize_response (some a)
  pub framed : IsFramed message a.body
  pub length_told : Mem (codes "Content-Length: " ++ to_decimal (length a.body)) a.headers

IsBuilt-headers :
    (a : Response)
    → IsBuilt a
    → Mem (codes "Content-Length: " ++ to_decimal (length a.body)) a.headers
unfolding format_response
IsBuilt-headers a h =
    rw (ap (λ (x : Response). x.headers) h.built) (mem-cons.1 (Or.inr mem-cons_self))

IsBuilt-IsFramed : (a : Response) → IsBuilt a → IsFramed (serialize_response (some a)) a.body
unfolding serialize_response
IsBuilt-IsFramed a h =
    subst (λ (x : Response). IsFramed (serialize x) a.body) (sym h.built)
      (serialize-IsFramed a.status_code a.content_type a.body h.status_one_line h.type_one_line)

module _ {W : Type 0} (services : Services W) (reg : Registry)
    (locations : List LocationConfig) where
  handler-IsBuilt :
      (h : RequestHandler) (w : W) (r : Request)
      → IsBuilt (handle_request services reg locations h w r).1
  unfolding handle_request
  handler-IsBuilt echo_handler w r =
      format_response-IsBuilt (codes "200 OK") plain r.raw_request refl refl
  handler-IsBuilt not_found_handler w r =
      format_response-IsBuilt (codes "404 Not Found") plain (codes "404 Not Found") refl refl
  handler-IsBuilt health_handler w r =
      format_response-IsBuilt (codes "200 OK") plain (codes "OK") refl refl
  handler-IsBuilt sleep_handler w r =
      format_response-IsBuilt (codes "200 OK") plain (codes "Slept for 3 seconds.") refl refl
  handler-IsBuilt (file_handler base prefix) w r = file-IsBuilt (services.files w) base prefix r
  handler-IsBuilt (api_handler data_path prefix) w r =
      api-IsBuilt (is_valid_json services.json_error) (services.store data_path) prefix w r

  either_answer :
      (b : Bool) (x y : W × Response) → IsBuilt x.1 → IsBuilt y.1 → IsBuilt (if b then x else y).1
  either_answer true x y h k = h
  either_answer false x y h k = k

  respond-IsBuilt : (w : W) (r : Request) → IsBuilt (respond services reg locations w r).1
  unfolding respond
  respond-IsBuilt w r =
      either_answer (not r.is_valid) (w, bad_request (codes "400 Bad Request"))
        (handle_request services reg locations (create_handler reg locations r.url) w r)
        (format_response-IsBuilt (codes "400 Bad Request") plain (codes "400 Bad Request") refl
          refl)
        (handler-IsBuilt (create_handler reg locations r.url) w r)

  -- What a session sends for the request in its buffer, whichever handler answers it and whatever
  -- the handler's body holds: the body is what stands behind the first blank line of the message,
  -- and a Content-Length header tells its length in decimal.
  -- The callbacks are those that return.
  pub handle_buffer-IsAnswer :
      (s : Session) (w : W) (n : ℕ)
      → find blank_line s.request_buffer ≡ some n
      → IsAnswer
          (handle_buffer services reg locations s w).0.response
          (respond services reg locations w (parse s.request_buffer blank_request).1).1
  handle_buffer-IsAnswer s w n e =
      let r = (parse s.request_buffer blank_request).1 in
      let a = (respond services reg locations w r).1 in
      let good = respond-IsBuilt w r in
      let sent_as =
        ap (λ (x : Session × W). x.0.response)
          (handle_buffer_complete services reg locations s w n e) in
      record {
        serialized = sent_as;
        framed = subst (λ (m : Bytes). IsFramed m a.body) (sym sent_as) (IsBuilt-IsFramed a good);
        length_told = IsBuilt-headers a good;
      }
