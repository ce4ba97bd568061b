-- ===== src/Server/Dispatcher.antt =====
-- `RequestDispatcher` (src/request_dispatcher.cc).
use ucla_bathroom_ratings.Base.{
  ltb, if◌then◌else◌, length, is_empty, Bytes, codes, find, at_zero, ℕ, Bool, ◌&&◌, Option, none,
  some, List, [], ◌∷◌,
}
use ucla_bathroom_ratings.Server.Location.{LocationConfig, ServerConfig}
use ucla_bathroom_ratings.Server.Registry.{
  RequestHandler, HandlerFactory, create, Registry, get_factory, not_found_factory,
}

-- `best_match` with its length, which is 0 for a null pointer.
abbrev pub best_length : Option LocationConfig → ℕ
best_length none = 0
best_length (some l) = length l.path

unfoldable pub is_better : Bytes → LocationConfig → Option LocationConfig → Bool
is_better url l best = at_zero (find l.path url) && ltb (best_length best) (length l.path)

-- The loop over `locations_`.
unfoldable pub best_match_from :
    Bytes → Option LocationConfig → List LocationConfig → Option LocationConfig
best_match_from url best [] = best
best_match_from url best (l ∷ ls) =
    best_match_from url (if is_better url l best then some l else best) ls

unfoldable pub find_best_match : Bytes → List LocationConfig → Option LocationConfig
unfolding best_match_from is_better
find_best_match url ls = best_match_from url none ls

-- `InitFromServerConfig`: the dispatcher's locations, or `none` for false.
unfoldable pub init_from_server_config : ServerConfig → Option (List LocationConfig)
init_from_server_config c = if is_empty c.locations then none else some c.locations

abbrev pub not_found_config : LocationConfig
not_found_config = record { path = []; handler_name = codes "NotFoundHandler"; args = [] }

-- The handler of a factory from the registry; `none` is a null factory.
unfoldable pub create_from : Option HandlerFactory → RequestHandler
create_from none = create (not_found_factory not_found_config)
create_from (some factory) = create factory

unfoldable pub handler_for : Registry → Option LocationConfig → RequestHandler
handler_for reg none = create (not_found_factory not_found_config)
handler_for reg (some l) = create_from (get_factory l.path reg)

unfoldable pub create_handler : Registry → List LocationConfig → Bytes → RequestHandler
create_handler reg ls url = handler_for reg (find_best_match url ls)
