-- ===== src/Server/Routing.antt =====
-- Startup and dispatch together: `initialize_from_args` (src/server_main_utils.cc) and
-- `CreateHandler` (src/request_dispatcher.cc).
use ucla_bathroom_ratings.Base.{
  ◌==◌, Bool-cases, Option-cases, is_empty, All, All-at, Bytes, ℕ, ◌≡◌, refl, ◌≢◌, ◌↔◌, ◌⊎◌, inl,
  inr, true, false, Option, none, some, List, [], ◌∷◌, arith,
}
use ucla_bathroom_ratings.Base.Int.{ℤ, same_int_iff, pos}
use ucla_bathroom_ratings.Config.Syntax.{NginxConfig}
use ucla_bathroom_ratings.Server.Location.{LocationConfig}
use ucla_bathroom_ratings.Server.Registry.{
  RequestHandler, HandlerFactory, create, Registry, get_factory, not_found_handler,
}
use ucla_bathroom_ratings.Server.Dispatcher.{
  find_best_match, init_from_server_config, create_from, handler_for, create_handler,
}
use ucla_bathroom_ratings.Server.Matching.{
  AllWithin, IsBest, find_best_match-IsBest, find_best_match-none_iff,
}
use ucla_bathroom_ratings.Server.Startup.{
  Extraction, extract_server_config, is_valid, invalid_result, load_config, init_result,
  initialize_from_config, initialize_from_args,
}
use ucla_bathroom_ratings.Server.Registration.{IsRegistered, extract_server_config-AllRegistered}

-- The handler of a URL, where a location matches.
pub record IsRouted (ls : List LocationConfig) (reg : Registry) (url : Bytes) (h : RequestHandler)
    : Type 0 where
  pub location : LocationConfig
  pub best : IsBest url ls location
  pub registered : IsRegistered ls reg location
  pub built : h ≡ create registered.factory

abbrev pub Routes : List LocationConfig → Registry → Bytes → Type 0
Routes ls reg url =
    (AllWithin url 0 ls × (create_handler reg ls url ≡ not_found_handler))
    ⊎ IsRouted ls reg url (create_handler reg ls url)

create_handler-none :
    (reg : Registry) (ls : List LocationConfig) (url : Bytes)
    → find_best_match url ls ≡ none
    → create_handler reg ls url ≡ not_found_handler
unfolding create_handler handler_for create
create_handler-none reg ls url e = rw e

create_handler-some :
    (reg : Registry) (ls : List LocationConfig) (url : Bytes) (l : LocationConfig)
    (f : HandlerFactory)
    → find_best_match url ls ≡ some l
    → get_factory l.path reg ≡ some f
    → create_handler reg ls url ≡ create f
unfolding create_handler handler_for create_from
create_handler-some reg ls url l f e g = rw (e, handler_for) (rw (g, create_from))

Routes-of :
    (ls : List LocationConfig) (reg : Registry) (url : Bytes)
    → All (IsRegistered ls reg) ls
    → Routes ls reg url
Routes-of ls reg url h = elim (Option-cases (find_best_match url ls)) [
  | inl e ↦ inl ((find_best_match-none_iff url ls).0 e, create_handler-none reg ls url e)
  | inr (l, e) ↦
      let best = find_best_match-IsBest url ls l e in
      let registered : IsRegistered ls reg l =
        All-at (IsRegistered ls reg) ls best.before best.after l best.splits h in
      inr (record {
        location = l;
        best = best;
        registered = registered;
        built = create_handler-some reg ls url l registered.factory e registered.found;
      })
]

-- Behind the extraction of any configuration, a URL that no location with a path matches gets the
-- not-found handler; any other URL gets the handler that the registered factory for the best
-- location builds. A null factory does not occur.
pub create_handler-Routes :
    (c : NginxConfig) (default_port : ℤ) (reg : Registry) (url : Bytes)
    → Routes
        (extract_server_config c default_port reg).config.locations
        (extract_server_config c default_port reg).registry
        url
create_handler-Routes c default_port reg url =
    Routes-of _ _ url (extract_server_config-AllRegistered c default_port reg)

-- What a start needs: two arguments, a file that parses, a location, and a port other than 0.
pub record CanStart (argc : ℕ) (file : Option Bytes) (default_port : ℤ) (reg : Registry)
    : Type 0 where
  pub two : argc ≡ 2
  pub config : NginxConfig
  pub loads : load_config file ≡ some config
  pub located : (extract_server_config config default_port reg).config.locations ≢ []
  pub port_ne : (extract_server_config config default_port reg).config.port ≢ pos 0

init_result-is_valid :
    (x : Extraction)
    → is_valid (init_result x) ≡ true
    → (x.config.locations ≢ []) × (x.config.port ≢ pos 0)
unfolding is_valid init_result init_from_server_config
init_result-is_valid x h = (
  ground (arith, same_int_iff x.config.port (pos 0)),
  ground (arith, same_int_iff x.config.port (pos 0)),
)

pub is_empty-of-ne : {A : Type 0} (xs : List A) → xs ≢ [] → is_empty xs ≡ false
is_empty-of-ne [] h = absurd (h refl)
is_empty-of-ne (x ∷ xs) h = refl

init_result-valid :
    (x : Extraction)
    → x.config.locations ≢ []
    → x.config.port ≢ pos 0
    → is_valid (init_result x) ≡ true
unfolding is_valid init_result init_from_server_config
init_result-valid x h k =
    ground (arith, same_int_iff x.config.port (pos 0), is_empty-of-ne x.config.locations h)

not_valid : is_valid invalid_result ≢ true
unfolding is_valid
not_valid = cc

started_by :
    (argc : ℕ) (file : Option Bytes) (default_port : ℤ) (reg : Registry)
    → is_valid (initialize_from_args argc file default_port reg).1 ≡ true
    → CanStart argc file default_port reg
unfolding initialize_from_args initialize_from_config
started_by argc file default_port reg h = elim (Bool-cases (argc == 2)) [
  | inr other ↦ absurd (not_valid (rw other at h))
  | inl two ↦ elim (Option-cases (load_config file)) [
    | inl unread ↦ absurd (not_valid (rw (two, unread, initialize_from_config) at h))
    | inr (c, e) ↦
        let (located, port_ne) =
          init_result-is_valid _ (rw (two, e, initialize_from_config) at h) in
        record { two = ground arith; config = c; loads = e; located = located; port_ne = port_ne }
  ]
]

starts :
    (argc : ℕ) (file : Option Bytes) (default_port : ℤ) (reg : Registry)
    → CanStart argc file default_port reg
    → is_valid (initialize_from_args argc file default_port reg).1 ≡ true
unfolding initialize_from_args initialize_from_config
starts argc file default_port reg s =
    rw (s.two, s.loads, initialize_from_config) (init_result-valid _ s.located s.port_ne)

-- The result of `initialize_from_args` is valid exactly when there are two arguments, the file
-- loads and parses, at least one location could be registered, and the port is not 0.
pub initialize_from_args-is_valid_iff :
    (argc : ℕ) (file : Option Bytes) (default_port : ℤ) (reg : Registry)
    → (is_valid (initialize_from_args argc file default_port reg).1 ≡ true)
      ↔ CanStart argc file default_port reg
initialize_from_args-is_valid_iff argc file default_port reg =
    (started_by argc file default_port reg, starts argc file default_port reg)
