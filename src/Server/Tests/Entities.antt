-- ===== src/Server/Tests/Entities.antt =====
-- Requests for entities over connections: one POST and one GET, with the store on disk
-- (src/entity_store_persistent.cc) behind the API handler.
use ucla_bathroom_ratings.Base.{
  ◌==◌, is_empty, codes, same, starts_with, find, ℕ, ◌≡◌, refl, ◌≢◌, true, false, [], ◌∷◌, arith,
}
use ucla_bathroom_ratings.Base.Int.{pos}
use ucla_bathroom_ratings.Server.Location.{LocationConfig}
use ucla_bathroom_ratings.Server.Registry.{Registry, get_factory, api_handler, api_factory}
use ucla_bathroom_ratings.Server.Dispatcher.{
  is_better, best_match_from, find_best_match, create_from, handler_for, create_handler,
}
use ucla_bathroom_ratings.Server.Session.{Services}
use ucla_bathroom_ratings.Http.RequestParser.{is_space, is_allowed_method, begins_with_slash}
use ucla_bathroom_ratings.Http.RequestText.{RequestText}
use ucla_bathroom_ratings.Http.RequestReading.{no_space-IsWord}
use ucla_bathroom_ratings.Base.Decimal.{decimal_loop, to_decimal, int_to_string}
use ucla_bathroom_ratings.Store.Validation.{is_name_char, is_valid_entity_name}
use ucla_bathroom_ratings.Handler.Segments.{IsPlainPrefix}
use ucla_bathroom_ratings.Handler.Requests.{object_url}
use ucla_bathroom_ratings.Server.Entities.{IsApiRequest}
use ucla_bathroom_ratings.Base.Map.{lookup_name, insert_name}
use ucla_bathroom_ratings.Server.Registry
use ucla_bathroom_ratings.Server.Tests.{no_files}
use ucla_bathroom_ratings.Store.Persistent.{
  Disk, ids_in, has_id, lowest_free, ensure_entity_directory, write_file, create_file, create_in,
  create, persistent,
}
use ucla_bathroom_ratings.Store.Durable.{open_system, DiskHasRoom}
use ucla_bathroom_ratings.Store.Persistent

abbrev pub api_location : LocationConfig
api_location = record {
  path = codes "/api";
  handler_name = codes "ApiHandler";
  args = (codes "data_path", codes "/data") ∷ [];
}

abbrev pub api_registered : Registry
api_registered = (codes "/api", api_factory api_location (codes "/data")) ∷ []

abbrev pub post_shoe : RequestText
post_shoe = record {
  method = codes "POST";
  url = codes "/api/shoe";
  headers = [];
  body = codes "{\"size\":9}";
}

abbrev pub get_shoe : RequestText
get_shoe = record { method = codes "GET"; url = codes "/api/shoe/0"; headers = []; body = [] }

post_shoe_routed :
    create_handler api_registered (api_location ∷ []) (codes "/api/shoe")
    ≡ api_handler (codes "/data") (codes "/api")
unfolding create_handler handler_for find_best_match best_match_from is_better find starts_with
    create_from get_factory lookup_name Registry.create same
post_shoe_routed = refl

pub post_shoe-IsApiRequest :
    IsApiRequest api_registered (api_location ∷ []) (codes "/data") (codes "/api") post_shoe
unfolding is_space is_allowed_method same begins_with_slash
post_shoe-IsApiRequest = record {
  readable = record {
    method_word = no_space-IsWord (codes "POST") refl;
    method_allowed = refl;
    url_word = no_space-IsWord (codes "/api/shoe") refl;
    url_absolute = refl;
    headers_well = tt;
  };
  fits = omega arith;
  routed = post_shoe_routed;
}

get_shoe_routed :
    create_handler api_registered (api_location ∷ []) (codes "/api/shoe/0")
    ≡ api_handler (codes "/data") (codes "/api")
unfolding create_handler handler_for find_best_match best_match_from is_better find starts_with
    create_from get_factory lookup_name Registry.create same
get_shoe_routed = refl

pub get_shoe-IsApiRequest :
    IsApiRequest api_registered (api_location ∷ []) (codes "/data") (codes "/api") get_shoe
unfolding is_space is_allowed_method same begins_with_slash
get_shoe-IsApiRequest = record {
  readable = record {
    method_word = no_space-IsWord (codes "GET") refl;
    method_allowed = refl;
    url_word = no_space-IsWord (codes "/api/shoe/0") refl;
    url_absolute = refl;
    headers_well = tt;
  };
  fits = omega arith;
  routed = get_shoe_routed;
}

-- The services of a server whose entities are files, on an empty disk.
abbrev pub disk_services : Services Disk
disk_services = record {
  json_error = is_empty;
  files = λ w. no_files;
  store = λ path. persistent open_system;
}

abbrev pub empty_disk : Disk
empty_disk = []

pub shoe_room : DiskHasRoom empty_disk (codes "shoe")
unfolding lookup_name
shoe_room = omega arith

pub shoe_valid : is_valid_entity_name (codes "shoe") ≡ true
unfolding is_valid_entity_name is_name_char
shoe_valid = refl

pub shoe_url : codes "/api/shoe/0" ≡ object_url (codes "/api") (codes "shoe") 0
unfolding int_to_string to_decimal decimal_loop
shoe_url = refl

pub first_id : ((persistent open_system).create empty_disk (codes "shoe") post_shoe.body).1 ≡ pos 0
unfolding persistent Persistent.create is_valid_entity_name is_name_char ensure_entity_directory
    lookup_name create_in insert_name same create_file lowest_free has_id ids_in write_file
first_id = refl

no_query : (c : ℕ) → (c == b'?') ≡ false → c ≢ b'?'
no_query c h = ground arith

pub api-IsPlainPrefix : IsPlainPrefix (codes "/api")
api-IsPlainPrefix =
    (cc, (no_query 47 refl, (no_query 97 refl, (no_query 112 refl, (no_query 105 refl, tt)))))
