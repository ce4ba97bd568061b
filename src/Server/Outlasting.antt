-- ===== src/Server/Outlasting.antt =====
-- An entity over connections, among the requests of others (src/session.cc,
-- src/request_handler_api.cc, src/entity_store_persistent.cc).
use mathlib.Core.Path.{subst}
use ucla_bathroom_ratings.Store.Json.{is_valid_json}
use ucla_bathroom_ratings.Base.{
  All, Bytes, codes, same_self, ℕ, ◌<◌, ◌≡◌, refl, sym, ap, ◌∙◌, true, false, Option, some, List,
  [], ◌∷◌,
}
use ucla_bathroom_ratings.Http.Message.{Response}
use ucla_bathroom_ratings.Http.RequestText.{RequestText}
use ucla_bathroom_ratings.Http.RequestReading.{parsed}
use ucla_bathroom_ratings.Store.Calls.{StoreCall, call, run_calls, RoomThroughout, creates}
use ucla_bathroom_ratings.Handler.Api.{json, extract_segments, json_id}
use ucla_bathroom_ratings.Handler.Calls.{segments_calls, segments_calls-post}
use ucla_bathroom_ratings.Server.Location.{LocationConfig}
use ucla_bathroom_ratings.Server.Registry.{RequestHandler, Registry}
use ucla_bathroom_ratings.Server.Session.{Endpoint, blank_request, Services}
use ucla_bathroom_ratings.Server.Entities.{IsApiRequest, exchange, exchange-api, exchange-post-get}
use ucla_bathroom_ratings.Base.Int.{ℤ, same_int_self, is_negative, pos}
use ucla_bathroom_ratings.Http.ResponseBuilder.{ok, serialize_response}
use ucla_bathroom_ratings.Store.Interface.{EntityStore}
use ucla_bathroom_ratings.Store.Validation.{is_valid_entity_name}
use ucla_bathroom_ratings.Store.Contract.{Contract}
use ucla_bathroom_ratings.Store.History.{run_calls-History}
use ucla_bathroom_ratings.Store.Lasting.{Spares, run_calls-keeps}
use ucla_bathroom_ratings.Handler.Segments.{IsPlainPrefix, extract_segments-join}
use ucla_bathroom_ratings.Handler.Requests.{
  entity_url, object_url, name-IsSegment, answer_to, at_object,
}
use ucla_bathroom_ratings.Handler.RoundTrip.{get_some}
use ucla_bathroom_ratings.Server.Traffic.{
  handler_calls, AtDataPath, IsTraffic, request_calls, traffic_calls, exchange_all, exchange-calls,
  exchange_all-calls, traffic-NamesInt32,
}

module _ {W : Type 0} (services : Services W) (reg : Registry) (locations : List LocationConfig)
    (data_path prefix : Bytes) {Holds : W → Type 0} {HasRoom : W → Bytes → Type 0}
    {view_of : W → Bytes → ℤ → Option Bytes}
    (laws : Contract (services.store data_path) Holds HasRoom view_of)
    (plain_prefix : IsPlainPrefix prefix) where
  abbrev store_here : EntityStore W
  store_here = services.store data_path

  abbrev behind : List (Endpoint × RequestText) → W → W
  behind = exchange_all services reg locations data_path

  -- The call that a POST of valid JSON makes.
  post-calls :
      (post : RequestText) (e : Bytes)
      → is_valid_entity_name e ≡ true
      → IsApiRequest reg locations data_path prefix post
      → post.method ≡ codes "POST"
      → post.url ≡ entity_url prefix e
      → is_valid_json services.json_error post.body ≡ true
      → request_calls services reg locations data_path post ≡ creates e post.body ∷ []
  post-calls post e valid p m u good =
      ap
        (λ (h : RequestHandler).
          handler_calls (is_valid_json services.json_error) h (parsed post blank_request))
        p.routed
      ∙ ap
          (λ (ss : List Bytes).
            segments_calls (is_valid_json services.json_error) ss (parsed post blank_request))
          (ap (extract_segments prefix) u
            ∙ (extract_segments-join prefix (e ∷ []) [] plain_prefix
                (name-IsSegment e valid, tt)).0)
      ∙ segments_calls-post (is_valid_json services.json_error) e (parsed post blank_request) valid
          m good

  -- The object that a create made is there.
  created_there :
      (w : W) (e d : Bytes) (n : ℕ)
      → Holds w
      → HasRoom w e
      → (store_here.create w e d).1 ≡ pos n
      → (n < 2147483648) × (view_of (store_here.create w e d).0 e (pos n) ≡ some d)
  created_there w e d n holds room made =
      let small : n < 2147483648 = rw made at (laws.create_keeps w e d holds room).1 in
      let good : is_negative (store_here.create w e d).1 ≡ false = rw made refl in
      (
        small,
        (laws.create_law w e d e (pos n) holds room small good).1
            ∙ rw (made, same_self e, same_int_self (pos n)) refl,
      )

  post-state :
      (here : Endpoint) (w : W) (e : Bytes) (post : RequestText)
      → is_valid_entity_name e ≡ true
      → IsApiRequest reg locations data_path prefix post
      → post.method ≡ codes "POST"
      → post.url ≡ entity_url prefix e
      → is_valid_json services.json_error post.body ≡ true
      → behind ((here, post) ∷ []) w ≡ (store_here.create w e post.body).0
  unfolding run_calls call
  post-state here w e post valid p m u good =
      exchange-calls services reg locations data_path here post w p.readable
        (subst (AtDataPath data_path) (sym p.routed) refl)
      ∙ ap (λ (cs : List StoreCall). (run_calls store_here cs w).0)
          (post-calls post e valid p m u good)

  abbrev got : RequestText → W → W × Response
  got get v =
      answer_to (is_valid_json services.json_error) store_here prefix v (parsed get blank_request)

  object_shown :
      (get : RequestText) (s : W) (e : Bytes) (n : ℕ) (d : Bytes)
      → Holds s
      → is_valid_entity_name e ≡ true
      → get.method ≡ codes "GET"
      → get.url ≡ object_url prefix e n
      → n < 2147483648
      → view_of s e (pos n) ≡ some d
      → (got get s).1 ≡ ok d json
  object_shown get s e n d held valid m u small there =
      ap (λ (x : W × Response). x.1)
        (at_object (is_valid_json services.json_error) store_here laws prefix plain_prefix s
          (parsed get blank_request) e n valid u)
      ∙ get_some (is_valid_json services.json_error) store_here laws s e n
          (parsed get blank_request) d held valid m small there

  -- An entity that a client created is served until it is replaced or deleted, from bytes to
  -- bytes: over any store that keeps `Contract`, in a state that its invariant holds of and that
  -- has room in the entity, a client sends a POST of valid JSON to the URL of an entity over a
  -- new connection, for which the store gives an identifier `n`, and receives the serialized
  -- response with that identifier; then other requests follow, each over a connection of its
  -- own; and a client that then sends a GET of the URL of the identifier receives the
  -- serialized response whose body is the posted one. All requests are of the form that the
  -- parser reads, have at most 1024 bytes and come in one read each; POST and GET are routed to the
  -- API handler of the store; a request in between goes to a handler that returns for it, and to no
  -- API handler with another data path; the calls that
  -- those requests make find room for each `Create`, and none updates or deletes the object; the
  -- entity's name is valid, and the prefix is not empty and has no question mark.
  pub exchange-outlasts :
      (here there : Endpoint) (w : W) (e : Bytes) (n : ℕ) (post get : RequestText)
      (others : List (Endpoint × RequestText))
      → Holds w
      → HasRoom w e
      → is_valid_entity_name e ≡ true
      → IsApiRequest reg locations data_path prefix post
      → IsApiRequest reg locations data_path prefix get
      → post.method ≡ codes "POST"
      → post.url ≡ entity_url prefix e
      → get.method ≡ codes "GET"
      → get.url ≡ object_url prefix e n
      → is_valid_json services.json_error post.body ≡ true
      → (store_here.create w e post.body).1 ≡ pos n
      → All (IsTraffic services reg locations data_path) others
      → RoomThroughout store_here HasRoom
          (traffic_calls services reg locations data_path others)
          (behind ((here, post) ∷ []) w)
      → All (Spares e (pos n)) (traffic_calls services reg locations data_path others)
      → ((exchange services reg locations here post w).0.response
          ≡ serialize_response (some (ok (json_id (pos n)) json)))
        × ((exchange services reg locations there get (behind ((here, post) ∷ others) w)).0.response
            ≡ serialize_response (some (ok post.body json)))
  exchange-outlasts here there w e n post get others holds room valid p g mp up mg ug good made
        traffic rooms spared =
      let w1 = behind ((here, post) ∷ []) w in
      let cs = traffic_calls services reg locations data_path others in
      let s2 = (run_calls store_here cs w1).0 in
      let e1 : w1 ≡ (store_here.create w e post.body).0 =
        post-state here w e post valid p mp up good in
      let (small, there1) = created_there w e post.body n holds room made in
      let held1 : Holds w1 = subst Holds (sym e1) (laws.create_keeps w e post.body holds room).0 in
      let view1 : view_of w1 e (pos n) ≡ some post.body =
        ap (λ (v : W). view_of v e (pos n)) e1 ∙ there1 in
      let names = traffic-NamesInt32 services reg locations data_path others in
      let held2 = (run_calls-History store_here laws cs w1 held1 names rooms).1 in
      let view2 =
        sym (laws.read_law s2 e (pos n) e (pos n) held2 small).0
        ∙ run_calls-keeps store_here laws e (pos n) post.body cs w1 small held1 names rooms spared
            view1 in
      (
        (exchange-post-get services reg locations data_path prefix laws plain_prefix here there w e
            n post get holds room valid p g mp up mg ug good made).0,
        ap (λ (x : Bytes × W). x.0)
              (exchange-api services reg locations there data_path prefix get (behind others w1) g)
            ∙ ap (λ (v : W). serialize_response (some (got get v).1))
                (exchange_all-calls services reg locations data_path others w1 traffic)
            ∙ ap (λ (x : Response). serialize_response (some x))
                (object_shown get s2 e n post.body held2 valid mg ug small view2),
      )
