-- ===== src/Server/Tests/Outlasting.antt =====
-- The theorem on an entity among the requests of others (src/session.cc,
-- src/request_handler_api.cc) at a POST, a PUT of another object, a health check, and a GET.
use mathlib.Core.Path.{subst}
use ucla_bathroom_ratings.Store.Json.{is_valid_json}
use ucla_bathroom_ratings.Store.Contract.{IsElsewhere}
use ucla_bathroom_ratings.Base.{
  All, codes, same, starts_with, find, trim_front, trim_back, get_lines, ◌≡◌, refl, sym, some, List,
  [], ◌∷◌, ◌++◌, arith,
}
use ucla_bathroom_ratings.Base.Int.{to_int32, same_int, pos}
use ucla_bathroom_ratings.Base.Map.{lookup_name}
use ucla_bathroom_ratings.Http.RequestParser.{is_space, is_allowed_method, begins_with_slash}
use ucla_bathroom_ratings.Http.RequestText.{RequestText}
use ucla_bathroom_ratings.Http.RequestReading.{IsRequestText, parsed, no_space-IsWord}
use ucla_bathroom_ratings.Http.ResponseBuilder.{ok, serialize_response}
use ucla_bathroom_ratings.Store.Durable.{open_system, open_system-IsReadable, DiskHasRoom}
use ucla_bathroom_ratings.Store.Disk.{empty_disk-IsTidy}
use ucla_bathroom_ratings.Store.DiskContract.{persistent-Contract}
use ucla_bathroom_ratings.Store.Calls.{StoreCall, RoomThroughout, updates}
use ucla_bathroom_ratings.Handler.Api.{
  json, cut_query, strip_prefix, keep_nonempty, extract_segments, json_id,
}
use ucla_bathroom_ratings.Server.Registry.{Registry, get_factory, not_found_handler, api_handler}
use ucla_bathroom_ratings.Server.Registry
use ucla_bathroom_ratings.Server.Dispatcher.{
  is_better, best_match_from, find_best_match, create_from, handler_for, create_handler,
}
use ucla_bathroom_ratings.Server.Session.{Endpoint, blank_request, throws}
use ucla_bathroom_ratings.Server.Entities.{exchange}
use ucla_bathroom_ratings.Server.Traffic.{IsTraffic, traffic_calls, exchange_all}
use ucla_bathroom_ratings.Server.Outlasting.{exchange-outlasts}
use ucla_bathroom_ratings.Server.Tests.{a_peer, other_peer}
use ucla_bathroom_ratings.Server.Tests.Entities.{
  api_location, api_registered, post_shoe, get_shoe, post_shoe-IsApiRequest, get_shoe-IsApiRequest,
  disk_services, empty_disk, shoe_room, shoe_valid, shoe_url, first_id, api-IsPlainPrefix,
}
use ucla_bathroom_ratings.Store.Validation.{
  is_digit, is_name_char, is_valid_entity_name, parse_digits, parse_id,
}
use ucla_bathroom_ratings.Store.Persistent.{Disk, persistent}
use ucla_bathroom_ratings.Store.Lasting.{Spares}
use ucla_bathroom_ratings.Handler.Calls.{object_calls, segments_calls}

abbrev put_other : RequestText
put_other = record {
  method = codes "PUT";
  url = codes "/api/shoe/1";
  headers = [];
  body = codes "{}";
}

abbrev ask_health : RequestText
ask_health = record { method = codes "GET"; url = codes "/x"; headers = []; body = [] }

put_other_routed :
    create_handler api_registered (api_location ∷ []) (codes "/api/shoe/1")
    ≡ api_handler (codes "/data") (codes "/api")
unfolding create_handler handler_for find_best_match best_match_from is_better find starts_with
    create_from get_factory lookup_name Registry.create same
put_other_routed = refl

ask_health_routed :
    create_handler api_registered (api_location ∷ []) (codes "/x") ≡ not_found_handler
unfolding create_handler handler_for find_best_match best_match_from is_better find starts_with
    create_from Registry.create same
ask_health_routed = refl

abbrev pub others : List (Endpoint × RequestText)
others = (other_peer, put_other) ∷ (a_peer, ask_health) ∷ []

put_other-IsRequestText : IsRequestText put_other
unfolding is_space is_allowed_method same begins_with_slash
put_other-IsRequestText = record {
  method_word = no_space-IsWord (codes "PUT") refl;
  method_allowed = refl;
  url_word = no_space-IsWord (codes "/api/shoe/1") refl;
  url_absolute = refl;
  headers_well = tt;
}

ask_health-IsRequestText : IsRequestText ask_health
unfolding is_space is_allowed_method same begins_with_slash
ask_health-IsRequestText = record {
  method_word = no_space-IsWord (codes "GET") refl;
  method_allowed = refl;
  url_word = no_space-IsWord (codes "/x") refl;
  url_absolute = refl;
  headers_well = tt;
}

pub others-IsTraffic :
    All (IsTraffic disk_services api_registered (api_location ∷ []) (codes "/data")) others
unfolding throws
others-IsTraffic = (
  record {
    readable = put_other-IsRequestText;
    fits = omega arith;
    at_path = rw put_other_routed refl;
    returns = λ w. rw put_other_routed refl;
  },
  (
    record {
      readable = ask_health-IsRequestText;
      fits = omega arith;
      at_path = rw ask_health_routed tt;
      returns = λ w. rw ask_health_routed refl;
    },
    tt,
  ),
)

put_calls :
    segments_calls
        (is_valid_json disk_services.json_error)
        (extract_segments (codes "/api") (codes "/api/shoe/1"))
        (parsed put_other blank_request)
      ++ []
    ≡ updates (codes "shoe") (pos 1) (codes "{}") ∷ []
unfolding extract_segments cut_query strip_prefix keep_nonempty find starts_with segments_calls
    object_calls same parse_id parse_digits is_digit to_int32 is_valid_entity_name is_name_char
    get_lines trim_back trim_front
put_calls = refl

pub others_calls :
    traffic_calls disk_services api_registered (api_location ∷ []) (codes "/data") others
    ≡ updates (codes "shoe") (pos 1) (codes "{}") ∷ []
others_calls = rw (put_other_routed, ask_health_routed) put_calls

pub away : IsElsewhere (codes "shoe") (pos 1) (codes "shoe") (pos 0)
unfolding same same_int
away = refl

others_spare :
    All
      (Spares (codes "shoe") (pos 0))
      (traffic_calls disk_services api_registered (api_location ∷ []) (codes "/data") others)
others_spare = subst (All (Spares (codes "shoe") (pos 0))) (sym others_calls) (away, tt)

pub others_find_room :
    (w : Disk)
    → RoomThroughout
        (persistent open_system)
        DiskHasRoom
        (traffic_calls disk_services api_registered (api_location ∷ []) (codes "/data") others)
        w
others_find_room w =
    subst (λ (cs : List StoreCall). RoomThroughout (persistent open_system) DiskHasRoom cs w)
      (sym others_calls) (tt, tt)

exchange-outlasts_example :
    ((exchange disk_services api_registered
        (api_location ∷ [])
        a_peer
        post_shoe
        empty_disk).0.response
      ≡ serialize_response (some (ok (json_id (pos 0)) json)))
    × ((exchange disk_services api_registered (api_location ∷ []) other_peer get_shoe (
          exchange_all disk_services api_registered
            (api_location ∷ [])
            (codes "/data")
            ((a_peer, post_shoe) ∷ others)
            empty_disk)).0.response
        ≡ serialize_response (some (ok post_shoe.body json)))
exchange-outlasts_example =
    exchange-outlasts disk_services api_registered (api_location ∷ []) (codes "/data")
      (codes "/api") (persistent-Contract open_system open_system-IsReadable) api-IsPlainPrefix
      a_peer other_peer empty_disk (codes "shoe") 0 post_shoe get_shoe others empty_disk-IsTidy
      shoe_room shoe_valid post_shoe-IsApiRequest get_shoe-IsApiRequest refl refl refl shoe_url refl
      first_id others-IsTraffic (others_find_room _) others_spare
