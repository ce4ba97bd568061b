-- ===== src/Handler/Tests.antt =====
-- The theorems on the request handlers (src/request_handler_api.cc, src/request_handler_file.cc) at
-- a small store and a small file system.
use ucla_bathroom_ratings.Base.{
  ltb, if◌then◌else◌, is_empty, Bytes, codes, same, starts_with, find, ℕ, ◌≡◌, refl, ◌≢◌, ◌↔◌, Bool,
  true, false, not, ◌||◌, none, some, [], ◌∷◌, ◌++◌, arith,
}
use ucla_bathroom_ratings.Base.Int.{same_int, pos}
use ucla_bathroom_ratings.Base.Decimal.{decimal_loop, to_decimal, int_to_string}
use ucla_bathroom_ratings.Http.Message.{Request, Response}
use ucla_bathroom_ratings.Http.ResponseBuilder.{ok}
use ucla_bathroom_ratings.Store.InMemory.{
  InMemory, empty_store, set_object, count_object, objects_of, set_objects, next_free, store_new,
  create, update, delete, in_memory,
}
use ucla_bathroom_ratings.Store.Memory.{view, IsValid, HasRoom}
use ucla_bathroom_ratings.Store.Contract.{in_memory-Contract, empty_store-IsValid}
use ucla_bathroom_ratings.Store.Validation.{is_name_char, is_valid_entity_name}
use ucla_bathroom_ratings.Handler.Api.{json, extract_segments, json_id}
use ucla_bathroom_ratings.Handler.Crud.{invalid_json, respond_segments}
use ucla_bathroom_ratings.Handler.Listing.{Lists, handle_request-Lists}
use ucla_bathroom_ratings.Handler.Requests.{
  object_url, name-IsSegment, answer_to, handle_request-post-get, handle_request-put-get,
}
use ucla_bathroom_ratings.Handler.Segments.{IsPlainPrefix, join, extract_segments-join}
use ucla_bathroom_ratings.Handler.RoundTrip.{bad_json-unchanged}
use ucla_bathroom_ratings.Handler.File.{FileSystem, relative_path, handle_path, handle_request}
use ucla_bathroom_ratings.Handler.Containment.{
  IsContained, handle_request-IsContained, handle_request-forbidden_iff,
}

abbrev requested_by : Bytes → Bytes → Bytes → Request
requested_by m u b = record {
  is_valid = true;
  raw_request = [];
  method = m;
  url = u;
  http_version = codes "1.1";
  headers = [];
  body = b;
}

abbrev post_shoe : Request
post_shoe = requested_by (codes "POST") (codes "/api/shoe") (codes "{}")

abbrev put_shoe : Request
put_shoe = requested_by (codes "PUT") (codes "/api/shoe/0") (codes "[]")

abbrev get_shoe : Request
get_shoe = requested_by (codes "GET") (codes "/api/shoe/0") []

abbrev delete_shoe : Request
delete_shoe = requested_by (codes "DELETE") (codes "/api/shoe/0") []

-- A body is taken for JSON if it is not empty.
abbrev not_empty : Bytes → Bool
not_empty b = not (is_empty b)

abbrev shoe : Bytes
shoe = codes "shoe"

-- The store after one POST.
abbrev one_shoe : InMemory
one_shoe = (in_memory.create empty_store shoe (codes "{}")).0

shoe_valid : is_valid_entity_name shoe ≡ true
unfolding is_valid_entity_name is_name_char
shoe_valid = refl

first_id : (in_memory.create empty_store shoe (codes "{}")).1 ≡ pos 0
unfolding in_memory create store_new next_free count_object objects_of
first_id = refl

room : HasRoom empty_store shoe
unfolding objects_of
room = omega arith

one_shoe-IsValid : IsValid one_shoe
one_shoe-IsValid =
    let (kept, small) =
      in_memory-Contract.create_keeps empty_store shoe (codes "{}") empty_store-IsValid room in
    kept

other_byte : (c : ℕ) → (ltb c 63 || ltb 63 c) ≡ true → c ≢ b'?'
other_byte c h = ground arith

shoe_url : codes "/api/shoe/0" ≡ object_url (codes "/api") shoe 0
unfolding int_to_string to_decimal decimal_loop
shoe_url = refl

abbrev api : Bytes
api = codes "/api"

api-IsPlainPrefix : IsPlainPrefix api
api-IsPlainPrefix = (
  cc,
  (other_byte 47 refl, (other_byte 97 refl, (other_byte 112 refl, (other_byte 105 refl, tt)))),
)

handle_request-post-get_example :
    ((answer_to not_empty in_memory api empty_store post_shoe).1 ≡ ok (json_id (pos 0)) json)
    × ((answer_to not_empty in_memory api
          (answer_to not_empty in_memory api empty_store post_shoe).0
          get_shoe).1
        ≡ ok (codes "{}") json)
handle_request-post-get_example =
    handle_request-post-get not_empty in_memory in_memory-Contract api api-IsPlainPrefix empty_store
      shoe 0 post_shoe get_shoe empty_store-IsValid room shoe_valid refl refl refl shoe_url refl
      first_id

updated : (in_memory.update one_shoe shoe (pos 0) (codes "[]")).1 ≡ true
unfolding in_memory update
updated = refl

handle_request-put-get_example :
    ((answer_to not_empty in_memory api one_shoe put_shoe).1 ≡ ok (json_id (pos 0)) json)
    × ((answer_to not_empty in_memory api
          (answer_to not_empty in_memory api one_shoe put_shoe).0
          get_shoe).1
        ≡ ok (codes "[]") json)
handle_request-put-get_example =
    handle_request-put-get not_empty in_memory in_memory-Contract api api-IsPlainPrefix one_shoe
      shoe 0 put_shoe get_shoe one_shoe-IsValid shoe_valid refl shoe_url refl shoe_url refl updated
      (omega arith)

deleted : (in_memory.delete one_shoe shoe (pos 0)).1 ≡ true
unfolding in_memory delete create count_object objects_of store_new next_free set_objects same
    set_object same_int
deleted = refl

abbrev list_shoes : Request
list_shoes = requested_by (codes "GET") (codes "/api/shoe") []

handle_request-Lists_example :
    Lists
      (in_memory.list one_shoe shoe).1
      (view one_shoe shoe)
      (answer_to not_empty in_memory api one_shoe list_shoes).1
handle_request-Lists_example =
    handle_request-Lists not_empty in_memory in_memory-Contract api api-IsPlainPrefix one_shoe shoe
      list_shoes one_shoe-IsValid shoe_valid refl refl

extract_segments-join_example :
    (extract_segments api (api ++ join (shoe ∷ [])) ≡ shoe ∷ [])
    × (extract_segments api ((api ++ join (shoe ∷ [])) ++ (b'?' ∷ codes "a=/b")) ≡ shoe ∷ [])
extract_segments-join_example =
    extract_segments-join api (shoe ∷ []) (codes "a=/b") api-IsPlainPrefix
      (name-IsSegment shoe shoe_valid, tt)

abbrev empty_post : Request
empty_post = requested_by (codes "POST") (codes "/api/shoe") []

abbrev empty_put : Request
empty_put = requested_by (codes "PUT") (codes "/api/shoe/0") []

bad_json-unchanged_example :
    (respond_segments not_empty in_memory one_shoe (shoe ∷ []) empty_post
      ≡ (one_shoe, invalid_json))
    × (respond_segments not_empty in_memory one_shoe (shoe ∷ int_to_string (pos 0) ∷ []) empty_put
        ≡ (one_shoe, invalid_json))
bad_json-unchanged_example =
    bad_json-unchanged not_empty in_memory one_shoe shoe 0 empty_post empty_put shoe_valid refl refl
      refl refl (omega arith)

-- Files under /srv/pub, beside a directory /srv/public_backup; links are not there, and a path is
-- canonical but for `..`, which is written out for one path.
abbrev escape : Bytes
escape = codes "/srv/pub/../public_backup/key"

abbrev resolve : Bytes → Bytes
resolve p = if same p escape then codes "/srv/public_backup/key" else p

abbrev small_files : FileSystem
small_files = record {
  join = λ base p. base ++ (codes "/" ++ p);
  exists = λ p. some true;
  canonical = λ p. some (resolve p);
  is_directory = λ p. same p (codes "/srv/pub");
  extension = λ p. codes ".html";
  read = λ p. some p;
}

abbrev escaping : Request
escaping = requested_by (codes "GET") (codes "/static/../public_backup/key") []

handle_request-IsContained_example :
    IsContained small_files
      (codes "/srv/pub")
      (small_files.join (codes "/srv/pub") (relative_path (codes "/static") escaping.url))
      (handle_request small_files (codes "/srv/pub") (codes "/static") escaping)
handle_request-IsContained_example =
    handle_request-IsContained small_files (codes "/srv/pub") (codes "/static") escaping

path_resolved :
    small_files.canonical
      (small_files.join (codes "/srv/pub") (relative_path (codes "/static") escaping.url))
    ≡ some (codes "/srv/public_backup/key")
unfolding relative_path find starts_with same
path_resolved = refl

base_resolved : small_files.canonical (codes "/srv/pub") ≡ some (codes "/srv/pub")
unfolding same
base_resolved = refl

-- The key beside the base directory is not refused.
handle_request-forbidden_iff_example :
    (answer : Response) × (handle_request small_files (codes "/srv/pub") (codes "/static") escaping
      ≡ some answer)
    × ((starts_with (codes "/srv/pub") (codes "/srv/public_backup/key") ≡ false)
        ↔ (answer.status_code ≡ codes "403 Forbidden"))
handle_request-forbidden_iff_example =
    handle_request-forbidden_iff small_files (codes "/srv/pub") (codes "/static") (codes "/srv/pub")
      (codes "/srv/public_backup/key") escaping refl path_resolved base_resolved

-- A file system whose `exists` throws.
abbrev broken_files : FileSystem
broken_files = record small_files { exists = λ p. none }

no_answer : handle_request broken_files (codes "/srv/pub") (codes "/static") escaping ≡ none
unfolding handle_request handle_path
no_answer = refl
