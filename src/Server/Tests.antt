-- ===== src/Server/Tests.antt =====
-- The theorems on the start of the server, the dispatcher and the session at one configuration.
mod Serving
mod Entities
mod Outlasting
mod Removal
mod Deployment
use ucla_bathroom_ratings.Base.{
  is_empty, Bytes, codes, starts_with, find, trim_front, ◌%◌, ◌≡◌, refl, ◌↔◌, true, false, none,
  some, List, [], ◌∷◌, ◌++◌, arith,
}
use ucla_bathroom_ratings.Base.Int.{pos, negsuc}
use ucla_bathroom_ratings.Config.Syntax.{
  NginxConfigStatement, NginxConfig, simple, block, nil, cons,
}
use ucla_bathroom_ratings.Http.Framing.{blank_line}
use ucla_bathroom_ratings.Handler.File.{FileSystem}
use ucla_bathroom_ratings.Store.InMemory.{InMemory, empty_store, in_memory}
use ucla_bathroom_ratings.Server.Location.{
  LocationConfig, to_int16, leading_digits, signed_digits, port_of,
}
use ucla_bathroom_ratings.Server.Registry.{Registry}
use ucla_bathroom_ratings.Server.Dispatcher.{is_better, best_match_from, find_best_match}
use ucla_bathroom_ratings.Server.Startup.{extract_server_config, is_valid, initialize_from_args}
use ucla_bathroom_ratings.Server.Session.{Endpoint, Session, started, Services, run, received, sent}
use ucla_bathroom_ratings.Server.Matching.{IsBest, find_best_match-IsBest}
use ucla_bathroom_ratings.Server.Registration.{AllRegistered, extract_server_config-AllRegistered}
use ucla_bathroom_ratings.Server.Routing.{
  Routes, create_handler-Routes, CanStart, initialize_from_args-is_valid_iff,
}
use ucla_bathroom_ratings.Server.Connection.{buffered, run_split, Repeats, step-Repeats}
use ucla_bathroom_ratings.Server.Registry
use ucla_bathroom_ratings.Base.Decimal.{to_decimal}
use ucla_bathroom_ratings.Server.Ports.{port_of-to_decimal}
use ucla_bathroom_ratings.Store.Validation.{is_digit}

abbrev two_words : Bytes → Bytes → NginxConfigStatement
two_words a b = simple (a ∷ b ∷ [])

abbrev location_block : Bytes → Bytes → NginxConfigStatement
location_block path handler =
    block (codes "location" ∷ path ∷ []) (cons (two_words (codes "handler") handler) nil)

abbrev served : NginxConfig
served =
    cons
      (block (codes "server" ∷ []) (
        cons (two_words (codes "listen") (codes "80")) (
          cons (location_block (codes "/e") (codes "EchoHandler"))
            (cons (location_block (codes "/h") (codes "HealthHandler")) nil))))
      nil

abbrev pub none_registered : Registry
none_registered = []

abbrev echo_location : LocationConfig
echo_location = record { path = codes "/e"; handler_name = codes "EchoHandler"; args = [] }

abbrev longer_location : LocationConfig
longer_location = record { path = codes "/e/f"; handler_name = codes "HealthHandler"; args = [] }

abbrev pub two_locations : List LocationConfig
two_locations = echo_location ∷ longer_location ∷ []

longest_found : find_best_match (codes "/e/f/g") two_locations ≡ some longer_location
unfolding find_best_match best_match_from is_better find starts_with
longest_found = refl

find_best_match-IsBest_example : IsBest (codes "/e/f/g") two_locations longer_location
find_best_match-IsBest_example =
    find_best_match-IsBest (codes "/e/f/g") two_locations longer_location longest_found

extract_server_config-AllRegistered_example :
    AllRegistered (extract_server_config served (pos 8080) none_registered)
extract_server_config-AllRegistered_example =
    extract_server_config-AllRegistered served (pos 8080) none_registered

create_handler-Routes_example :
    Routes
      (extract_server_config served (pos 8080) none_registered).config.locations
      (extract_server_config served (pos 8080) none_registered).registry
      (codes "/h/now")
create_handler-Routes_example =
    create_handler-Routes served (pos 8080) none_registered (codes "/h/now")

initialize_from_args-is_valid_iff_example :
    (is_valid
        (initialize_from_args 2 (some (codes "server{listen 80;}")) (pos 8080) none_registered).1
      ≡ true)
    ↔ CanStart 2 (some (codes "server{listen 80;}")) (pos 8080) none_registered
initialize_from_args-is_valid_iff_example =
    initialize_from_args-is_valid_iff 2 (some (codes "server{listen 80;}")) (pos 8080)
      none_registered

abbrev pub no_files : FileSystem
no_files = record {
  join = λ base p. base ++ (codes "/" ++ p);
  exists = λ p. some false;
  canonical = λ p. none;
  is_directory = λ p. false;
  extension = λ p. [];
  read = λ p. none;
}

abbrev pub memory_services : Services InMemory
memory_services = record { json_error = is_empty; files = λ w. no_files; store = λ path. in_memory }

abbrev pub a_peer : Endpoint
a_peer = record { address = codes "10.0.0.7"; port_number = pos 50000 }

abbrev pub other_peer : Endpoint
other_peer = record { address = codes "10.0.0.8"; port_number = pos 50001 }

abbrev pub fresh : Session
fresh = started a_peer

abbrev pub part_a : Bytes
part_a = codes "GET /e HT"

abbrev pub part_b : Bytes
part_b = codes "TP/1.1\r\n\r\n"

no_blank_yet : find blank_line (fresh.request_buffer ++ part_a) ≡ none
unfolding find starts_with
no_blank_yet = refl

run_split_example :
    run memory_services none_registered two_locations
      (received part_a ∷ received part_b ∷ sent ∷ [])
      fresh
      empty_store
    ≡ run memory_services none_registered two_locations
        (received (part_a ++ part_b) ∷ sent ∷ [])
        fresh
        empty_store
run_split_example =
    run_split memory_services none_registered two_locations fresh empty_store part_a part_b
      (sent ∷ []) refl no_blank_yet

abbrev pub after_request : Session
after_request = buffered fresh (part_a ++ part_b)

pub whole_request : find blank_line after_request.request_buffer ≡ some 15
unfolding find starts_with
whole_request = refl

step-Repeats_example :
    Repeats memory_services none_registered two_locations after_request empty_store
      (codes "GET /h HTTP/1.1\r\n\r\n")
step-Repeats_example =
    step-Repeats memory_services none_registered two_locations after_request empty_store
      (codes "GET /h HTTP/1.1\r\n\r\n") 15 whole_request

port_of-to_decimal_example : port_of (to_decimal 65616) ≡ to_int16 (65616 % 65536)
port_of-to_decimal_example = port_of-to_decimal 65616 (omega arith)

-- Far beyond `int`, as glibc's `atoi` behaves.
port_of_saturates : port_of (codes "9223372036854775808") ≡ negsuc 0
unfolding port_of trim_front signed_digits leading_digits is_digit to_int16
port_of_saturates = refl
