-- ===== src/Server/Removal.antt =====
-- An entity that was deleted over a connection, among the requests of others (src/session.cc,
-- src/request_handler_api.cc).
use mathlib.Core.Path.{subst}
use ucla_bathroom_ratings.Store.Json.{is_valid_json}
use ucla_bathroom_ratings.Base.{
  All, Bytes, codes, same_self, ℕ, ◌<◌, ◌≡◌, refl, sym, ap, ◌∙◌, true, Option, none, some, List, [],
  ◌∷◌,
}
use ucla_bathroom_ratings.Http.Message.{Response}
use ucla_bathroom_ratings.Http.RequestText.{RequestText}
use ucla_bathroom_ratings.Http.RequestReading.{parsed}
use ucla_bathroom_ratings.Store.Calls.{StoreCall, call, run_calls, RoomThroughout, deletes}
use ucla_bathroom_ratings.Handler.Api.{json, extract_segments}
use ucla_bathroom_ratings.Handler.Calls.{segments_calls, segments_calls-delete}
use ucla_bathroom_ratings.Server.Location.{LocationConfig}
use ucla_bathroom_ratings.Server.Registry.{RequestHandler, Registry}
use ucla_bathroom_ratings.Server.Session.{Endpoint, blank_request, Services}
use ucla_bathroom_ratings.Server.Entities.{IsApiRequest, exchange, exchange-api}
use ucla_bathroom_ratings.Base.Int.{ℤ, same_int_self, pos}
use ucla_bathroom_ratings.Http.ResponseBuilder.{ok, serialize_response}
use ucla_bathroom_ratings.Store.Interface.{EntityStore}
use ucla_bathroom_ratings.Store.Validation.{is_valid_entity_name}
use ucla_bathroom_ratings.Store.Contract.{Contract}
use ucla_bathroom_ratings.Store.History.{run_calls-History}
use ucla_bathroom_ratings.Store.Lasting.{LeavesOut, run_calls-misses}
use ucla_bathroom_ratings.Handler.Segments.{IsPlainPrefix, extract_segments-join}
use ucla_bathroom_ratings.Handler.Requests.{
  object_url, name-IsSegment, number-IsSegment, answer_to, at_object, handle_request-delete-get,
}
use ucla_bathroom_ratings.Handler.RoundTrip.{get_none}
use ucla_bathroom_ratings.Server.Traffic.{
  handler_calls, AtDataPath, IsTraffic, request_calls, traffic_calls, exchange_all, exchange-calls,
  exchange_all-calls, traffic-NamesInt32,
}
use ucla_bathroom_ratings.Handler.Crud.{entity_missing}
use ucla_bathroom_ratings.Store.Identifiers.{parse_id-int_to_string}
use ucla_bathroom_ratings.Base.Decimal.{int_to_string}

module _ {W : Type 0} (services : Services W) (reg : Registry) (locations : List LocationConfig)
    (data_path prefix : Bytes) {Holds : W → Type 0} {HasRoom : W → Bytes → Type 0}
    {view_of : W → Bytes → ℤ → Option Bytes}
    (laws : Contract (services.store data_path) Holds HasRoom view_of)
    (plain_prefix : IsPlainPrefix prefix) where
  abbrev store_here : EntityStore W
  store_here = services.store data_path

  abbrev behind : List (Endpoint × RequestText) → W → W
  behind = exchange_all services reg locations data_path

  abbrev asked : RequestText → W → W × Response
  asked q v =
      answer_to (is_valid_json services.json_error) store_here prefix v (parsed q blank_request)

  -- The call that a DELETE makes.
  delete-calls :
      (remove : RequestText) (e : Bytes) (n : ℕ)
      → n < 2147483648
      → is_valid_entity_name e ≡ true
      → IsApiRequest reg locations data_path prefix remove
      → remove.method ≡ codes "DELETE"
      → remove.url ≡ object_url prefix e n
      → request_calls services reg locations data_path remove ≡ deletes e (pos n) ∷ []
  delete-calls remove e n small valid p m u =
      ap
        (λ (h : RequestHandler).
          handler_calls (is_valid_json services.json_error) h (parsed remove blank_request))
        p.routed
      ∙ ap
          (λ (ss : List Bytes).
            segments_calls (is_valid_json services.json_error) ss (parsed remove blank_request))
          (ap (extract_segments prefix) u
            ∙ (extract_segments-join prefix (e ∷ int_to_string (pos n) ∷ []) [] plain_prefix
                (name-IsSegment e valid, (number-IsSegment n, tt))).0)
      ∙ segments_calls-delete (is_valid_json services.json_error) e (int_to_string (pos n)) (pos n)
          (parsed remove blank_request) valid m (parse_id-int_to_string n small)

  delete-state :
      (here : Endpoint) (w : W) (e : Bytes) (n : ℕ) (remove : RequestText)
      → n < 2147483648
      → is_valid_entity_name e ≡ true
      → IsApiRequest reg locations data_path prefix remove
      → remove.method ≡ codes "DELETE"
      → remove.url ≡ object_url prefix e n
      → behind ((here, remove) ∷ []) w ≡ (store_here.delete w e (pos n)).0
  unfolding run_calls call
  delete-state here w e n remove small valid p m u =
      exchange-calls services reg locations data_path here remove w p.readable
        (subst (AtDataPath data_path) (sym p.routed) refl)
      ∙ ap (λ (cs : List StoreCall). (run_calls store_here cs w).0)
          (delete-calls remove e n small valid p m u)

  deleted_gone :
      (w : W) (e : Bytes) (n : ℕ)
      → Holds w
      → n < 2147483648
      → (store_here.delete w e (pos n)).1 ≡ true
      → view_of (store_here.delete w e (pos n)).0 e (pos n) ≡ none
  deleted_gone w e n holds small carried =
      laws.delete_law w e (pos n) e (pos n) holds small small
      ∙ rw (carried, same_self e, same_int_self (pos n)) refl

  object_missing :
      (get : RequestText) (s : W) (e : Bytes) (n : ℕ)
      → Holds s
      → is_valid_entity_name e ≡ true
      → get.method ≡ codes "GET"
      → get.url ≡ object_url prefix e n
      → n < 2147483648
      → view_of s e (pos n) ≡ none
      → (asked get s).1 ≡ entity_missing
  object_missing get s e n held valid m u small free =
      ap (λ (x : W × Response). x.1)
        (at_object (is_valid_json services.json_error) store_here laws prefix plain_prefix s
          (parsed get blank_request) e n valid u)
      ∙ get_none (is_valid_json services.json_error) store_here laws s e n
          (parsed get blank_request) held valid m small free

  -- An entity that a client deleted stays away until one is created or it is put back, from bytes
  -- to bytes: over any store that keeps `Contract`, in a state that its invariant holds of, a
  -- client sends a DELETE of the URL of an object over a new connection, which the store carries
  -- out, and receives the serialized response that says so; then other requests follow, each over
  -- a connection of its own; and a client that then sends a GET of that URL
  -- receives the serialized response that the entity is not found. All requests are of the form
  -- that the parser reads, have at most 1024 bytes and come in one read each; DELETE and GET are
  -- routed to the API handler of the store; a request in between goes to a handler that returns
  -- for it, and to no API handler with another data path; the calls
  -- that those requests make find room for each `Create`, and none creates an object of the
  -- entity or updates the deleted one; the identifier is below 2^31, the entity's name is valid,
  -- and the prefix is not empty and has no question mark.
  pub exchange-stays_deleted :
      (here there : Endpoint) (w : W) (e : Bytes) (n : ℕ) (remove get : RequestText)
      (others : List (Endpoint × RequestText))
      → Holds w
      → n < 2147483648
      → is_valid_entity_name e ≡ true
      → IsApiRequest reg locations data_path prefix remove
      → IsApiRequest reg locations data_path prefix get
      → remove.method ≡ codes "DELETE"
      → remove.url ≡ object_url prefix e n
      → get.method ≡ codes "GET"
      → get.url ≡ object_url prefix e n
      → (store_here.delete w e (pos n)).1 ≡ true
      → All (IsTraffic services reg locations data_path) others
      → RoomThroughout store_here HasRoom
          (traffic_calls services reg locations data_path others)
          (behind ((here, remove) ∷ []) w)
      → All (LeavesOut e (pos n)) (traffic_calls services reg locations data_path others)
      → ((exchange services reg locations here remove w).0.response
          ≡ serialize_response (some (ok (codes "{\"deleted\":true}") json)))
        × ((exchange services reg locations there get
              (behind ((here, remove) ∷ others) w)).0.response
            ≡ serialize_response (some entity_missing))
  exchange-stays_deleted here there w e n remove get others holds small valid p g mp up mg ug
        carried traffic rooms out =
      let w1 = behind ((here, remove) ∷ []) w in
      let cs = traffic_calls services reg locations data_path others in
      let s2 = (run_calls store_here cs w1).0 in
      let e1 = delete-state here w e n remove small valid p mp up in
      let held1 : Holds w1 = subst Holds (sym e1) (laws.keeps w e (pos n) [] holds small).2 in
      let view1 : view_of w1 e (pos n) ≡ none =
        ap (λ (v : W). view_of v e (pos n)) e1 ∙ deleted_gone w e n holds small carried in
      let names = traffic-NamesInt32 services reg locations data_path others in
      let held2 = (run_calls-History store_here laws cs w1 held1 names rooms).1 in
      let view2 =
        sym (laws.read_law s2 e (pos n) e (pos n) held2 small).0
        ∙ run_calls-misses store_here laws e (pos n) cs w1 small held1 names rooms out view1 in
      (
        ap (λ (x : Bytes × W). x.0)
              (exchange-api services reg locations here data_path prefix remove w p)
            ∙ ap (λ (x : Response). serialize_response (some x))
                (handle_request-delete-get (is_valid_json services.json_error) store_here laws
                  prefix plain_prefix w e n (parsed remove blank_request) (parsed get blank_request)
                  holds valid mp up mg ug carried small).0,
        ap (λ (x : Bytes × W). x.0)
              (exchange-api services reg locations there data_path prefix get (behind others w1) g)
            ∙ ap (λ (v : W). serialize_response (some (asked get v).1))
                (exchange_all-calls services reg locations data_path others w1 traffic)
            ∙ ap (λ (x : Response). serialize_response (some x))
                (object_missing get s2 e n held2 valid mg ug small view2),
      )
