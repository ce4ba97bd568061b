-- ===== src/Server/Entities.antt =====
-- Entities over connections: requests to an API location, from the bytes that a client sends to the
-- bytes that it receives (src/session.cc, src/request_handler_api.cc).
use ucla_bathroom_ratings.Store.Json.{is_valid_json}
use ucla_bathroom_ratings.Base.{
  length, Bytes, codes, ℕ, ◌≤◌, ◌≡◌, ap, ◌∙◌, true, Option, some, List, [], ◌∷◌,
}
use ucla_bathroom_ratings.Base.Int.{ℤ, pos}
use ucla_bathroom_ratings.Http.Message.{Response}
use ucla_bathroom_ratings.Http.ResponseBuilder.{ok, serialize_response}
use ucla_bathroom_ratings.Http.RequestText.{RequestText, render}
use ucla_bathroom_ratings.Http.RequestReading.{IsRequestText, parsed}
use ucla_bathroom_ratings.Store.Validation.{is_valid_entity_name}
use ucla_bathroom_ratings.Store.Contract.{Contract}
use ucla_bathroom_ratings.Handler.Segments.{IsPlainPrefix}
use ucla_bathroom_ratings.Handler.Api.{json, json_id}
use ucla_bathroom_ratings.Handler.Requests.{
  entity_url, object_url, answer_to, handle_request-post-get,
}
use ucla_bathroom_ratings.Server.Location.{LocationConfig}
use ucla_bathroom_ratings.Server.Registry.{Registry, api_handler}
use ucla_bathroom_ratings.Server.Dispatcher.{create_handler}
use ucla_bathroom_ratings.Server.Session.{
  Endpoint, Session, started, max_length, blank_request, Services, handle_request, run, received,
}
use ucla_bathroom_ratings.Server.Exchange.{handled, one_read-served}

-- The text of the request fits into one read.
abbrev pub FitsRead : RequestText → Type 0
FitsRead q = length (render q) ≤ max_length

module _ (reg : Registry) (locations : List LocationConfig) (data_path prefix : Bytes) where
  -- The request is one that the parser reads and that fits into one read, and its path is routed
  -- to the API handler.
  pub record IsApiRequest (q : RequestText) : Type 0 where
    pub readable : IsRequestText q
    pub fits : FitsRead q
    pub routed : create_handler reg locations q.url ≡ api_handler data_path prefix

module _ {W : Type 0} (services : Services W) (reg : Registry) (locations : List LocationConfig)
    (peer : Endpoint) where
  -- A new connection on which the text of the request comes in one read.
  abbrev pub exchange : RequestText → W → Session × W
  exchange q w = run services reg locations (received (render q) ∷ []) (started peer) w

module _ {W : Type 0} (services : Services W) (reg : Registry) (locations : List LocationConfig)
    (peer : Endpoint) (data_path prefix : Bytes) where
  handled-api :
      (q : RequestText) (w : W)
      → IsApiRequest reg locations data_path prefix q
      → handled services reg locations peer q w
        ≡ answer_to
            (is_valid_json services.json_error)
            (services.store data_path)
            prefix
            w
            (parsed q blank_request)
  unfolding handle_request
  handled-api q w h = rw h.routed

  -- What the client receives, and the world behind it.
  abbrev sent_api : RequestText → W → Bytes × W
  sent_api q w =
      let x =
        answer_to (is_valid_json services.json_error) (services.store data_path) prefix w
          (parsed q blank_request) in
      (serialize_response (some x.1), x.0)

  pub exchange-api :
      (q : RequestText) (w : W)
      → IsApiRequest reg locations data_path prefix q
      → (
        (exchange services reg locations peer q w).0.response,
        (exchange services reg locations peer q w).1,
      )
        ≡ sent_api q w
  exchange-api q w h =
      ap (λ (x : Session × W). (x.0.response, x.1))
        (one_read-served services reg locations peer q w h.readable)
      ∙ ap (λ (x : W × Response). (serialize_response (some x.1), x.0)) (handled-api q w h)

module _ {W : Type 0} (services : Services W) (reg : Registry) (locations : List LocationConfig)
    (data_path prefix : Bytes) {Holds : W → Type 0} {HasRoom : W → Bytes → Type 0}
    {view_of : W → Bytes → ℤ → Option Bytes}
    (laws : Contract (services.store data_path) Holds HasRoom view_of)
    (plain_prefix : IsPlainPrefix prefix) where
  abbrev talk : Endpoint → RequestText → W → Session × W
  talk peer = exchange services reg locations peer

  -- From the bytes of two requests to the bytes of their answers, over any store that keeps
  -- `Contract`, in a state that its invariant holds of and that has room in the entity: a client
  -- that sends a POST of valid JSON to the URL of an entity over a new connection, in one read,
  -- for which the store gives an identifier `n`, receives the serialized response with that
  -- identifier, and a client that then sends a GET of its URL over another new connection, in one
  -- read, receives the serialized response whose body is the posted one. Both requests are of the
  -- form that the parser reads and are routed to the API handler of the store; the entity's name
  -- is valid, and the prefix is not empty and has no question mark.
  pub exchange-post-get :
      (here there : Endpoint) (w : W) (e : Bytes) (n : ℕ) (post get : RequestText)
      → Holds w
      → HasRoom w e
      → is_valid_entity_name e ≡ true
      → IsApiRequest reg locations data_path prefix post
      → IsApiRequest reg locations data_path prefix get
      → post.method ≡ codes "POST"
      → post.url ≡ entity_url prefix e
      → get.method ≡ codes "GET"
      → get.url ≡ object_url prefix e n
      → is_valid_json services.json_error post.body ≡ true
      → ((services.store data_path).create w e post.body).1 ≡ pos n
      → ((talk here post w).0.response ≡ serialize_response (some (ok (json_id (pos n)) json)))
        × ((talk there get (talk here post w).1).0.response
            ≡ serialize_response (some (ok post.body json)))
  exchange-post-get here there w e n post get holds room valid p g mp up mg ug good made =
      let law =
        handle_request-post-get (is_valid_json services.json_error) (services.store data_path) laws
          prefix plain_prefix w e n (parsed post blank_request) (parsed get blank_request) holds
          room valid mp up mg ug good made in
      let posted = exchange-api services reg locations here data_path prefix post w p in
      let got =
        exchange-api services reg locations there data_path prefix get (talk here post w).1 g in
      (
        ap (λ (x : Bytes × W). x.0) posted
            ∙ ap (λ (x : Response). serialize_response (some x)) law.0,
        ap (λ (x : Bytes × W). x.0) got
            ∙ ap
                (λ (v : W). serialize_response (
                  some
                    (answer_to (is_valid_json services.json_error) (services.store data_path) prefix
                      v (parsed get blank_request)).1))
                (ap (λ (x : Bytes × W). x.1) posted)
            ∙ ap (λ (x : Response). serialize_response (some x)) law.1,
      )
