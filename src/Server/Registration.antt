-- ===== src/Server/Registration.antt =====
-- The registry and the configuration that `ExtractServerConfig` (src/server_main_utils.cc) leaves
-- agree: each location that the dispatcher gets has a factory.
use mathlib.Core.List.{Memᴰ}
use mathlib.Core.List.Memᴰ
use ucla_bathroom_ratings.Base.{
  Bool-cases, Option-cases, is_empty, All, All-append, Bytes, codes, same, same_iff, same_self, ◌≡◌,
  refl, ◌∙◌, inl, inr, Option, none, some, List, [], ◌∷◌, ◌++◌,
}
use ucla_bathroom_ratings.Base.Int.{ℤ}
use ucla_bathroom_ratings.Base.Map.{lookup_name-insert_name}
use ucla_bathroom_ratings.Config.Syntax.{NginxConfigStatement, NginxConfig, tokens, statements}
use ucla_bathroom_ratings.Server.Location.{LocationConfig, child, location_of}
use ucla_bathroom_ratings.Server.Registry.{
  HandlerFactory, Registry, register_handler, get_factory, factory_for,
  register_handler_for_location,
}
use ucla_bathroom_ratings.Server.Startup.{
  Extraction, register_location, read_location, read_server_statement, read_server_block, is_server,
  read_top_level, extract_server_config,
}

-- The registry holds, under the path of `l`, the factory of a location of the configuration that
-- has this path.
pub record IsRegistered (ls : List LocationConfig) (reg : Registry) (l : LocationConfig)
    : Type 0 where
  pub owner : LocationConfig
  pub factory : HandlerFactory
  pub listed : Memᴰ owner ls
  pub same_path : owner.path ≡ l.path
  pub made : factory_for owner ≡ some factory
  pub found : get_factory l.path reg ≡ some factory

abbrev pub AllRegistered : Extraction → Type 0
AllRegistered x = All (IsRegistered x.config.locations x.registry) x.config.locations

-- A location `l` with the factory `f` is registered and appended.
module _ (ls : List LocationConfig) (reg : Registry) (l : LocationConfig) (f : HandlerFactory) where
  keeps :
      (k : LocationConfig)
      → factory_for l ≡ some f
      → IsRegistered ls reg k
      → IsRegistered (ls ++ (l ∷ [])) (register_handler l.path f reg) k
  unfolding register_handler get_factory
  keeps k made r = elim (Bool-cases (same l.path k.path)) [
    | inl same_ ↦ record {
      owner = l;
      factory = f;
      listed = Memᴰ.append_right ls (Memᴰ.head refl);
      same_path = (same_iff l.path k.path).0 same_;
      made = made;
      found = lookup_name-insert_name l.path k.path f reg ∙ rw same_;
    }
    | inr other ↦ record {
      owner = r.owner;
      factory = r.factory;
      listed = Memᴰ.append_left (l ∷ []) r.listed;
      same_path = r.same_path;
      made = r.made;
      found = lookup_name-insert_name l.path k.path f reg ∙ rw other r.found;
    }
  ]

  keeps_All :
      (ks : List LocationConfig)
      → factory_for l ≡ some f
      → All (IsRegistered ls reg) ks
      → All (IsRegistered (ls ++ (l ∷ [])) (register_handler l.path f reg)) ks
  keeps_All [] made h = tt
  keeps_All (k ∷ ks) made h = (keeps k made h.0, keeps_All ks made h.1)

  added : factory_for l ≡ some f → IsRegistered (ls ++ (l ∷ [])) (register_handler l.path f reg) l
  unfolding register_handler get_factory
  added made = record {
    owner = l;
    factory = f;
    listed = Memᴰ.append_right ls (Memᴰ.head refl);
    same_path = refl;
    made = made;
    found = lookup_name-insert_name l.path l.path f reg ∙ rw same_self;
  }

register_location-AllRegistered :
    (l : LocationConfig) (x : Extraction) → AllRegistered x → AllRegistered (register_location l x)
unfolding register_location register_handler_for_location
register_location-AllRegistered l x h = elim (Bool-cases (is_empty l.handler_name)) [
  | inl empty ↦ rw (empty, register_handler_for_location) h
  | inr named ↦ elim (Option-cases (factory_for l)) [
    | inl unknown ↦ rw (named, unknown, register_handler_for_location) h
    | inr (f, made) ↦
        rw (named, made, register_handler_for_location)
          (All-append _ x.config.locations (l ∷ [])
            (keeps_All x.config.locations x.registry l f x.config.locations made h)
            (added x.config.locations x.registry l f made, tt))
  ]
]

read_location-AllRegistered :
    (path : Bytes) (c : Option NginxConfig) (x : Extraction)
    → AllRegistered x
    → AllRegistered (read_location path c x)
unfolding read_location
read_location-AllRegistered path none x h = h
read_location-AllRegistered path (some c) x h =
    register_location-AllRegistered (location_of path c) x h

read_server_statement-AllRegistered :
    (ts : List Bytes) (c : Option NginxConfig) (x : Extraction)
    → AllRegistered x
    → AllRegistered (read_server_statement ts c x)
unfolding read_server_statement
read_server_statement-AllRegistered [] c x h = h
read_server_statement-AllRegistered (t ∷ []) c x h = h
read_server_statement-AllRegistered (t ∷ v ∷ ts) c x h =
    elim (Bool-cases (same t (codes "listen"))) [
      | inl listen ↦ rw listen h
      | inr a ↦ elim (Bool-cases (same t (codes "location"))) [
        | inl location ↦ rw (a, location) (read_location-AllRegistered v c x h)
        | inr b ↦ rw (a, b) h
      ]
    ]

read_server_block-AllRegistered :
    (ss : List NginxConfigStatement) (x : Extraction)
    → AllRegistered x
    → AllRegistered (read_server_block ss x)
unfolding read_server_block
read_server_block-AllRegistered [] x h = h
read_server_block-AllRegistered (s ∷ ss) x h =
    read_server_block-AllRegistered ss _
      (read_server_statement-AllRegistered (tokens s) (child s) x h)

read_top_level-AllRegistered :
    (ss : List NginxConfigStatement) (x : Extraction)
    → AllRegistered x
    → AllRegistered (read_top_level ss x)
unfolding read_top_level
read_top_level-AllRegistered [] x h = h
read_top_level-AllRegistered (s ∷ ss) x h = elim (Option-cases (child s)) [
  | inl simple_ ↦ rw (simple_, read_top_level) (read_top_level-AllRegistered ss x h)
  | inr (c, e) ↦ elim (Bool-cases (is_server (tokens s))) [
    | inl server ↦
        rw (e, server, read_top_level) (read_server_block-AllRegistered (statements c) x h)
    | inr other ↦ rw (e, other, read_top_level) (read_top_level-AllRegistered ss x h)
  ]
]

-- Each location of the extracted configuration has a factory in the registry, and it is the factory
-- of a location of that configuration with the same path and a known handler name, whatever
-- configuration is read and whatever was registered before.
pub extract_server_config-AllRegistered :
    (c : NginxConfig) (default_port : ℤ) (reg : Registry)
    → AllRegistered (extract_server_config c default_port reg)
unfolding extract_server_config
extract_server_config-AllRegistered c default_port reg =
    read_top_level-AllRegistered (statements c) _ tt
