-- ===== src/Server/Tests/Deployment.antt =====
-- The theorem on the text of a configuration (src/server_main_utils.cc, src/server_main.cc) at a
-- port and two locations.
use ucla_bathroom_ratings.Base.{
  codes, same, starts_with, find, ends_in, pop_back, trim_front, trim_back, get_lines, ◌≡◌, refl,
  none, some, List, [], ◌∷◌, arith,
}
use ucla_bathroom_ratings.Config.Lexer.{is_token_delimiter, is_whitespace}
use ucla_bathroom_ratings.Config.Printable.{starts_word, word}
use ucla_bathroom_ratings.Server.Location.{LocationConfig}
use ucla_bathroom_ratings.Server.Registry.{
  create, Registry, get_factory, factory_for, static_factory, health_factory,
}
use ucla_bathroom_ratings.Server.ConfigText.{IsWritableLocation}
use ucla_bathroom_ratings.Server.Deployed.{IsDeployable, IsDeployed, main-IsDeployed}
use ucla_bathroom_ratings.Server.Tests.{none_registered, no_files, memory_services, a_peer}
use ucla_bathroom_ratings.Server.Registry
use ucla_bathroom_ratings.Server.Dispatcher.{
  is_better, best_match_from, find_best_match, create_from, handler_for, create_handler,
}
use ucla_bathroom_ratings.Server.Accept.{
  new_server, handle_accept, ServerEvent, throws_at, server_step, server_run, aborted, connected,
  accept_done, at_session,
}
use ucla_bathroom_ratings.Server.Session.{Services, throws, step_throws, received}
use ucla_bathroom_ratings.Handler.File
use ucla_bathroom_ratings.Store.InMemory.{InMemory, empty_store}
use ucla_bathroom_ratings.Base.Map.{lookup_name}
use ucla_bathroom_ratings.Http.RequestParser.{
  strip_return, is_space, skip_space, take_word, drop_word, extract, is_allowed_method,
  begins_with_slash, parse_words, parse_request_line, parse_headers, parse_rest, parse_lines, parse,
}
use ucla_bathroom_ratings.Handler.File.{handle_path, handle_request}

abbrev static_location : LocationConfig
static_location = record {
  path = codes "/s";
  handler_name = codes "StaticHandler";
  args = (codes "root", codes "/w") ∷ (codes "k", codes "v") ∷ [];
}

abbrev health_location : LocationConfig
health_location = record { path = codes "/h"; handler_name = codes "HealthHandler"; args = [] }

static_location-IsWritable : IsWritableLocation static_location
unfolding starts_word is_whitespace is_token_delimiter same factory_for
static_location-IsWritable = record {
  path_token = word refl (refl, tt);
  handler_token = word refl (search);
  arguments = (
    (word refl (refl, (refl, (refl, tt))), word refl (refl, tt), refl),
    ((word refl tt, word refl tt, refl), tt),
  );
  distinct = ((refl, tt), (tt, tt));
  factory = static_factory static_location;
  known = refl;
}

health_location-IsWritable : IsWritableLocation health_location
unfolding starts_word is_whitespace is_token_delimiter same factory_for
health_location-IsWritable = record {
  path_token = word refl (refl, tt);
  handler_token = word refl (search);
  arguments = tt;
  distinct = tt;
  factory = health_factory health_location;
  known = refl;
}

two_locations-IsDeployable : IsDeployable 8081 (static_location ∷ health_location ∷ [])
unfolding same
two_locations-IsDeployable = record {
  port_ne = omega arith;
  port_small = omega arith;
  located = λ e. cc;
  writable = (static_location-IsWritable, (health_location-IsWritable, tt));
  distinct_paths = ((refl, tt), (tt, tt));
}

main-IsDeployed_example :
    IsDeployed memory_services 8081 (static_location ∷ health_location ∷ []) none_registered
main-IsDeployed_example =
    main-IsDeployed memory_services 8081 (static_location ∷ health_location ∷ []) none_registered
      two_locations-IsDeployable

-- A request for a file at which `exists` throws aborts the server.
abbrev broken_services : Services InMemory
broken_services = record memory_services { files = λ w. record no_files { exists = λ p. none } }

abbrev static_registered : Registry
static_registered = (codes "/s", static_factory static_location) ∷ []

abbrev asking : List ServerEvent
asking =
    accept_done (connected (some a_peer))
    ∷ at_session 0 (received (codes "GET /s/x HTTP/1.1\r\n\r\n"))
    ∷ []

file_aborts :
    (server_run broken_services static_registered
      (static_location ∷ [])
      asking
      new_server
      empty_store).0.status
    ≡ aborted
unfolding server_run server_step handle_accept throws_at step_throws throws create_handler
    handler_for find_best_match best_match_from is_better create_from get_factory lookup_name
    Registry.create File.handle_request handle_path parse find parse_lines get_lines
    parse_request_line parse_words extract take_word skip_space drop_word strip_return ends_in
    pop_back is_space is_allowed_method same begins_with_slash parse_headers parse_rest starts_with
    trim_back trim_front
file_aborts = refl
