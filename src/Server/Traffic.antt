-- ===== src/Server/Traffic.antt =====
-- Many requests, each over a connection of its own, and what they leave in the entity store
-- (src/session.cc, src/request_handler_api.cc).
use ucla_bathroom_ratings.Store.Json.{is_valid_json}
use ucla_bathroom_ratings.Base.{
  All, All-append, Bytes, ◌≡◌, refl, sym, ap, ◌∙◌, Bool, false, List, [], ◌∷◌, ◌++◌,
}
use ucla_bathroom_ratings.Http.Message.{Request}
use ucla_bathroom_ratings.Http.RequestText.{RequestText}
use ucla_bathroom_ratings.Http.RequestReading.{IsRequestText, parsed}
use ucla_bathroom_ratings.Store.Calls.{StoreCall, call, run_calls, NamesInt32}
use ucla_bathroom_ratings.Handler.Api.{extract_segments}
use ucla_bathroom_ratings.Handler.Api
use ucla_bathroom_ratings.Handler.Calls.{
  segments_calls, handle_segments-calls, segments_calls-NamesInt32,
}
use ucla_bathroom_ratings.Server.Location.{LocationConfig}
use ucla_bathroom_ratings.Server.Registry.{
  RequestHandler, Registry, echo_handler, not_found_handler, health_handler, sleep_handler,
  file_handler, api_handler,
}
use ucla_bathroom_ratings.Server.Dispatcher.{create_handler}
use ucla_bathroom_ratings.Server.Session.{
  Endpoint, Session, blank_request, Services, handle_request, throws,
}
use ucla_bathroom_ratings.Server.Exchange.{one_read-served}
use ucla_bathroom_ratings.Server.Entities.{FitsRead, exchange}

-- The calls of the store that a request to a handler makes.
abbrev pub handler_calls : (Bytes → Bool) → RequestHandler → Request → List StoreCall
handler_calls valid_json (api_handler path prefix) r =
    segments_calls valid_json (extract_segments prefix r.url) r
handler_calls valid_json _ r = []

-- An API handler has the store at the data path.
abbrev pub AtDataPath : Bytes → RequestHandler → Type 0
AtDataPath data_path (api_handler path prefix) = path ≡ data_path
AtDataPath data_path _ = Unit

handler_calls-NamesInt32 :
    (valid_json : Bytes → Bool) (h : RequestHandler) (r : Request)
    → All NamesInt32 (handler_calls valid_json h r)
handler_calls-NamesInt32 valid_json (api_handler path prefix) r =
    segments_calls-NamesInt32 valid_json (extract_segments prefix r.url) r
handler_calls-NamesInt32 valid_json echo_handler r = tt
handler_calls-NamesInt32 valid_json not_found_handler r = tt
handler_calls-NamesInt32 valid_json health_handler r = tt
handler_calls-NamesInt32 valid_json sleep_handler r = tt
handler_calls-NamesInt32 valid_json (file_handler base prefix) r = tt

module _ {W : Type 0} (services : Services W) (reg : Registry) (locations : List LocationConfig)
    (data_path : Bytes) where
  abbrev pub state_behind : List StoreCall → W → W
  state_behind cs w = (run_calls (services.store data_path) cs w).0

  state_behind-append :
      (cs ds : List StoreCall) (w : W)
      → state_behind (cs ++ ds) w ≡ state_behind ds (state_behind cs w)
  unfolding run_calls
  state_behind-append [] ds w = refl
  state_behind-append (c ∷ cs) ds w =
      state_behind-append cs ds (call (services.store data_path) c w).0

  handler-calls :
      (h : RequestHandler) (w : W) (r : Request)
      → AtDataPath data_path h
      → (handle_request services reg locations h w r).0
        ≡ state_behind (handler_calls (is_valid_json services.json_error) h r) w
  unfolding handle_request Api.handle_request run_calls
  handler-calls (api_handler path prefix) w r at_path = rw at_path (
      handle_segments-calls (is_valid_json services.json_error) (services.store data_path) w
        (extract_segments prefix r.url) r)
  handler-calls echo_handler w r at_path = refl
  handler-calls not_found_handler w r at_path = refl
  handler-calls health_handler w r at_path = refl
  handler-calls sleep_handler w r at_path = refl
  handler-calls (file_handler base prefix) w r at_path = refl

  -- A request that the parser reads and that fits into one read, to any handler but an API handler
  -- with another data path, and but one that throws for it.
  pub record IsTraffic (from : Endpoint × RequestText) : Type 0 where
    pub readable : IsRequestText from.1
    pub fits : FitsRead from.1
    pub at_path : AtDataPath data_path (create_handler reg locations from.1.url)
    pub returns :
        (w : W)
        → throws services reg locations
            (create_handler reg locations from.1.url)
            w
            (parsed from.1 blank_request)
          ≡ false

  -- The calls of the store that one request makes, and those that many make.
  abbrev pub request_calls : RequestText → List StoreCall
  request_calls q =
      handler_calls (is_valid_json services.json_error) (create_handler reg locations q.url)
        (parsed q blank_request)

  abbrev pub traffic_calls : List (Endpoint × RequestText) → List StoreCall
  traffic_calls [] = []
  traffic_calls ((peer, q) ∷ qs) = request_calls q ++ traffic_calls qs

  -- The world behind some requests, each over a new connection.
  abbrev pub exchange_all : List (Endpoint × RequestText) → W → W
  exchange_all [] w = w
  exchange_all ((peer, q) ∷ qs) w = exchange_all qs (exchange services reg locations peer q w).1

  pub exchange-calls :
      (peer : Endpoint) (q : RequestText) (w : W)
      → IsRequestText q
      → AtDataPath data_path (create_handler reg locations q.url)
      → (exchange services reg locations peer q w).1 ≡ state_behind (request_calls q) w
  exchange-calls peer q w readable at_path =
      ap (λ (x : Session × W). x.1) (one_read-served services reg locations peer q w readable)
      ∙ handler-calls (create_handler reg locations q.url) w (parsed q blank_request) at_path

  pub exchange_all-calls :
      (qs : List (Endpoint × RequestText)) (w : W)
      → All IsTraffic qs
      → exchange_all qs w ≡ state_behind (traffic_calls qs) w
  unfolding run_calls
  exchange_all-calls [] w h = refl
  exchange_all-calls ((peer, q) ∷ qs) w (h, hs) =
      exchange_all-calls qs (exchange services reg locations peer q w).1 hs
      ∙ ap (state_behind (traffic_calls qs)) (exchange-calls peer q w h.readable h.at_path)
      ∙ sym (state_behind-append (request_calls q) (traffic_calls qs) w)

  pub traffic-NamesInt32 : (qs : List (Endpoint × RequestText)) → All NamesInt32 (traffic_calls qs)
  traffic-NamesInt32 [] = tt
  traffic-NamesInt32 ((peer, q) ∷ qs) =
      All-append NamesInt32 (request_calls q) (traffic_calls qs)
        (handler_calls-NamesInt32 (is_valid_json services.json_error)
          (create_handler reg locations q.url) (parsed q blank_request))
        (traffic-NamesInt32 qs)
