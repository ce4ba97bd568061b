-- ===== src/Server/Registry.antt =====
-- `HandlerRegistry` (src/handler_registry.cc), the factories (src/handler_factory.cc,
-- include/handler_factory.h) and `RegisterHandlerForLocation` (src/server_main_utils.cc).
use ucla_bathroom_ratings.Base.{
  if◌then◌else◌, is_empty, Bytes, codes, same, Bool, true, false, Option, none, some, List,
}
use ucla_bathroom_ratings.Base.Map.{lookup_name, insert_name}
use ucla_bathroom_ratings.Server.Location.{LocationConfig}

-- A handler object, with its fields. The store of an API handler is named by its data path.
pub data RequestHandler : Type 0 where
  echo_handler not_found_handler health_handler sleep_handler : RequestHandler
  file_handler : Bytes → Bytes → RequestHandler
  api_handler : Bytes → Bytes → RequestHandler

pub data HandlerFactory : Type 0 where
  echo_factory : LocationConfig → HandlerFactory
  static_factory : LocationConfig → HandlerFactory
  not_found_factory : LocationConfig → HandlerFactory
  health_factory : LocationConfig → HandlerFactory
  sleep_factory : LocationConfig → HandlerFactory
  api_factory : LocationConfig → Bytes → HandlerFactory

-- `args.find(key)`, or ".".
unfoldable pub arg_or_dot : Bytes → LocationConfig → Bytes
arg_or_dot key l = elim (lookup_name key l.args) [ none ↦ codes "." | some v ↦ v ]

-- `HandlerFactory::Create`.
unfoldable pub create : HandlerFactory → RequestHandler
unfolding arg_or_dot
create (echo_factory l) = echo_handler
create (static_factory l) = file_handler (arg_or_dot (codes "root") l) l.path
create (not_found_factory l) = not_found_handler
create (health_factory l) = health_handler
create (sleep_factory l) = sleep_handler
create (api_factory l store) = api_handler store l.path

-- `GetHandlerName`.
unfoldable pub get_handler_name : RequestHandler → Bytes
get_handler_name echo_handler = codes "EchoHandler"
get_handler_name not_found_handler = codes "NotFoundHandler"
get_handler_name health_handler = codes "HealthHandler"
get_handler_name sleep_handler = codes "SleepHandler"
get_handler_name (file_handler base prefix) = codes "StaticHandler"
get_handler_name (api_handler store prefix) = codes "ApiHandler"

-- `_factories`.
abbrev pub Registry : Type 0
Registry = List (Bytes × HandlerFactory)

unfoldable pub register_handler : Bytes → HandlerFactory → Registry → Registry
register_handler path factory reg = insert_name path factory reg

unfoldable pub get_factory : Bytes → Registry → Option HandlerFactory
get_factory path reg = lookup_name path reg

-- The choice of a factory by the handler's name; `none` for an unknown name.
unfoldable pub factory_for : LocationConfig → Option HandlerFactory
unfolding arg_or_dot
factory_for l =
    if same l.handler_name (codes "EchoHandler")
    then some (echo_factory l)
    else if same l.handler_name (codes "StaticHandler")
    then some (static_factory l)
    else if same l.handler_name (codes "HealthHandler")
    then some (health_factory l)
    else if same l.handler_name (codes "SleepHandler")
    then some (sleep_factory l)
    else if same l.handler_name (codes "ApiHandler")
    then some (api_factory l (arg_or_dot (codes "data_path") l))
    else none

unfoldable pub register_handler_for_location : LocationConfig → Registry → Registry × Bool
register_handler_for_location l reg =
    if is_empty l.handler_name then (reg, false) else elim (factory_for l) [
      | none ↦ (reg, false)
      | some factory ↦ (register_handler l.path factory reg, true)
    ]
