-- ===== src/Server/Startup.antt =====
-- The start of the server (src/server_main_utils.cc): `ExtractServerConfig`,
-- `initialize_dispatcher` and `initialize_from_args`.
use ucla_bathroom_ratings.Base.{
  ◌==◌, if◌then◌else◌, is_empty, Bytes, codes, same, ℕ, Bool, true, false, not, ◌&&◌, Option, none,
  some, List, [], ◌∷◌, ◌++◌,
}
use ucla_bathroom_ratings.Base.Int.{ℤ, same_int, pos}
use ucla_bathroom_ratings.Config.Syntax.{NginxConfigStatement, NginxConfig, tokens, statements}
use ucla_bathroom_ratings.Config.Parser.{parse}
use ucla_bathroom_ratings.Server.Location.{
  LocationConfig, ServerConfig, port_of, child, location_of,
}
use ucla_bathroom_ratings.Server.Registry.{Registry, register_handler_for_location}
use ucla_bathroom_ratings.Server.Dispatcher.{init_from_server_config}

-- What the extraction changes: the configuration that it builds, and the static registry.
pub record Extraction : Type 0 where
  pub config : ServerConfig
  pub registry : Registry

abbrev pub set_port : ℤ → Extraction → Extraction
set_port p x = record x { config = record { port = p; locations = x.config.locations } }

abbrev pub add_location : LocationConfig → Registry → Extraction → Extraction
add_location l reg x = record {
  config = record { port = x.config.port; locations = x.config.locations ++ (l ∷ []) };
  registry = reg;
}

-- A location is kept if its handler could be registered.
unfoldable pub register_location : LocationConfig → Extraction → Extraction
register_location l x =
    let (reg, registered) = register_handler_for_location l x.registry in
    if not (is_empty l.handler_name) && registered then add_location l reg x else x

unfoldable pub read_location : Bytes → Option NginxConfig → Extraction → Extraction
read_location path none x = x
read_location path (some c) x = register_location (location_of path c) x

-- One statement of the server block.
unfoldable pub read_server_statement : List Bytes → Option NginxConfig → Extraction → Extraction
read_server_statement (name ∷ value ∷ more) c x =
    if same name (codes "listen")
    then set_port (port_of value) x
    else if same name (codes "location")
    then read_location value c x
    else x
read_server_statement _ c x = x

unfoldable pub read_server_block : List NginxConfigStatement → Extraction → Extraction
read_server_block [] x = x
read_server_block (s ∷ ss) x = read_server_block ss (read_server_statement (tokens s) (child s) x)

-- `tokens_[0] == "server"`.
unfoldable pub is_server : List Bytes → Bool
is_server [] = false
is_server (t ∷ ts) = same t (codes "server")

-- Only the first server block counts.
unfoldable pub read_top_level : List NginxConfigStatement → Extraction → Extraction
read_top_level [] x = x
read_top_level (s ∷ ss) x = elim (child s) [
  | none ↦ read_top_level ss x
  | some c ↦
      if is_server (tokens s) then read_server_block (statements c) x else read_top_level ss x
]

unfoldable pub extract_server_config : NginxConfig → ℤ → Registry → Extraction
extract_server_config c default_port reg =
    read_top_level (statements c)
      (record { config = record { port = default_port; locations = [] }; registry = reg })

-- The dispatcher, which is null on an error, and the port.
pub record ServerInitResult : Type 0 where
  pub dispatcher : Option (List LocationConfig)
  pub port : ℤ

unfoldable pub is_valid : ServerInitResult → Bool
is_valid r = elim r.dispatcher [ none ↦ false | some d ↦ not (same_int r.port (pos 0)) ]

abbrev pub invalid_result : ServerInitResult
invalid_result = record { dispatcher = none; port = pos 0 }

-- `load_config_from_file`: the file's bytes are `none` if it does not open.
unfoldable pub load_config : Option Bytes → Option NginxConfig
load_config none = none
load_config (some text) = elim (parse text) [ some (true, c) ↦ some c | _ ↦ none ]

abbrev pub initialize_dispatcher : ServerConfig → Option (List LocationConfig)
initialize_dispatcher server_config = init_from_server_config server_config

-- The result that `initialize_dispatcher` leads to.
unfoldable pub init_result : Extraction → ServerInitResult
init_result x = elim (initialize_dispatcher x.config) [
  | none ↦ invalid_result
  | some d ↦ record { dispatcher = some d; port = x.config.port }
]

unfoldable pub initialize_from_config :
    Option NginxConfig → ℤ → Registry → Registry × ServerInitResult
initialize_from_config none default_port reg = (reg, invalid_result)
initialize_from_config (some c) default_port reg =
    let x = extract_server_config c default_port reg in (x.registry, init_result x)

abbrev pub validate_arguments : ℕ → Bool
validate_arguments argc = argc == 2

-- `initialize_from_args`, for `argc` arguments and the contents of the file that `argv[1]` names.
unfoldable pub initialize_from_args : ℕ → Option Bytes → ℤ → Registry → Registry × ServerInitResult
initialize_from_args argc file default_port reg =
    if not (validate_arguments argc)
    then (reg, invalid_result)
    else initialize_from_config (load_config file) default_port reg
