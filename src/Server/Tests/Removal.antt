-- ===== src/Server/Tests/Removal.antt =====
-- The theorem on a deleted entity (src/session.cc, src/request_handler_api.cc) at a DELETE, the
-- requests of others, and a GET.
use mathlib.Core.Path.{subst}
use ucla_bathroom_ratings.Base.{All, codes, same, ◌≡◌, refl, sym, true, some, [], ◌∷◌, arith}
use ucla_bathroom_ratings.Base.Int.{pos}
use ucla_bathroom_ratings.Base.Map.{lookup_name, insert_name}
use ucla_bathroom_ratings.Base.Decimal.{decimal_loop, to_decimal, int_to_string}
use ucla_bathroom_ratings.Http.ResponseBuilder.{ok, serialize_response}
use ucla_bathroom_ratings.Http.RequestParser.{is_space, is_allowed_method, begins_with_slash}
use ucla_bathroom_ratings.Http.RequestText.{RequestText}
use ucla_bathroom_ratings.Http.RequestReading.{no_space-IsWord}
use ucla_bathroom_ratings.Store.Validation.{is_name_char, is_valid_entity_name}
use ucla_bathroom_ratings.Store.Persistent
use ucla_bathroom_ratings.Store.Persistent.{
  Directory, Disk, remove_in, delete, persistent, directory,
}
use ucla_bathroom_ratings.Store.Disk.{
  IsTidy, empty_disk-IsTidy, insert-IsTidy, with_text, with_text-IsOrderly,
}
use ucla_bathroom_ratings.Store.Durable.{open_system, open_system-IsReadable}
use ucla_bathroom_ratings.Store.DiskContract.{persistent-Contract}
use ucla_bathroom_ratings.Store.Lasting.{LeavesOut}
use ucla_bathroom_ratings.Handler.Api.{json}
use ucla_bathroom_ratings.Handler.Crud.{entity_missing}
use ucla_bathroom_ratings.Server.Entities.{IsApiRequest, exchange}
use ucla_bathroom_ratings.Server.Traffic.{exchange_all}
use ucla_bathroom_ratings.Server.Removal.{exchange-stays_deleted}
use ucla_bathroom_ratings.Server.Tests.{a_peer, other_peer}
use ucla_bathroom_ratings.Server.Tests.Entities.{
  api_location, api_registered, get_shoe, get_shoe-IsApiRequest, disk_services, shoe_valid,
  shoe_url, api-IsPlainPrefix,
}
use ucla_bathroom_ratings.Server.Tests.Outlasting.{
  others, others-IsTraffic, others_calls, away, others_find_room,
}

abbrev delete_shoe : RequestText
delete_shoe = record { method = codes "DELETE"; url = codes "/api/shoe/0"; headers = []; body = [] }

delete_shoe-IsApiRequest :
    IsApiRequest api_registered (api_location ∷ []) (codes "/data") (codes "/api") delete_shoe
unfolding is_space is_allowed_method same begins_with_slash
delete_shoe-IsApiRequest = record {
  readable = record {
    method_word = no_space-IsWord (codes "DELETE") refl;
    method_allowed = refl;
    url_word = no_space-IsWord (codes "/api/shoe/0") refl;
    url_absolute = refl;
    headers_well = tt;
  };
  fits = omega arith;
  routed = get_shoe-IsApiRequest.routed;
}

abbrev shoe_files : Directory
shoe_files = with_text [] 0 (codes "9")

abbrev shoe_disk : Disk
shoe_disk = insert_name (codes "shoe") (directory shoe_files) []

shoe_disk-IsTidy : IsTidy shoe_disk
shoe_disk-IsTidy =
    insert-IsTidy [] (codes "shoe") shoe_files empty_disk-IsTidy
      (with_text-IsOrderly [] 0 (codes "9") (omega arith) (record { entries = tt; distinct = tt }))

shoe_deleted : ((persistent open_system).delete shoe_disk (codes "shoe") (pos 0)).1 ≡ true
unfolding persistent Persistent.delete is_valid_entity_name is_name_char lookup_name remove_in
    insert_name same to_decimal decimal_loop int_to_string
shoe_deleted = refl

exchange-stays_deleted_example :
    ((exchange disk_services api_registered
        (api_location ∷ [])
        a_peer
        delete_shoe
        shoe_disk).0.response
      ≡ serialize_response (some (ok (codes "{\"deleted\":true}") json)))
    × ((exchange disk_services api_registered (api_location ∷ []) other_peer get_shoe (
          exchange_all disk_services api_registered
            (api_location ∷ [])
            (codes "/data")
            ((a_peer, delete_shoe) ∷ others)
            shoe_disk)).0.response
        ≡ serialize_response (some entity_missing))
exchange-stays_deleted_example =
    exchange-stays_deleted disk_services api_registered (api_location ∷ []) (codes "/data")
      (codes "/api") (persistent-Contract open_system open_system-IsReadable) api-IsPlainPrefix
      a_peer other_peer shoe_disk (codes "shoe") 0 delete_shoe get_shoe others shoe_disk-IsTidy
      (omega arith) shoe_valid delete_shoe-IsApiRequest get_shoe-IsApiRequest refl shoe_url refl
      shoe_url shoe_deleted others-IsTraffic (others_find_room _)
      (subst (All (LeavesOut (codes "shoe") (pos 0))) (sym others_calls) (away, tt))
