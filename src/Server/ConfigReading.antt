-- ===== src/Server/ConfigReading.antt =====
-- What `ExtractServerConfig` (src/server_main_utils.cc) reads from the text of Server/ConfigText.
use ucla_bathroom_ratings.Base.{
  Bool-cases, is_empty, All, All-at, Bytes, codes, same, same_iff, ℕ, ◌%◌, ◌<◌, ◌≡◌, refl, sym, ap,
  ◌∙◌, inl, inr, false, List, [], ◌∷◌, ◌++◌, append_assoc, append-nil, arith,
}
use ucla_bathroom_ratings.Base.Int.{ℤ, pos}
use ucla_bathroom_ratings.Base.Map.{insert_name, IsDistinct}
use ucla_bathroom_ratings.Config.Syntax.{tokens, statements, simple}
use ucla_bathroom_ratings.Config.Printable.{IsToken}
use ucla_bathroom_ratings.Server.Location.{
  LocationConfig, ServerConfig, to_int16, child, read_directive, read_directives, location_of,
}
use ucla_bathroom_ratings.Server.Registry.{Registry, register_handler_for_location}
use ucla_bathroom_ratings.Server.Startup.{
  Extraction, register_location, read_location, read_server_statement, read_server_block, is_server,
  read_top_level, extract_server_config,
}
use ucla_bathroom_ratings.Server.Ports.{port_of-to_decimal}
use ucla_bathroom_ratings.Server.ConfigText.{
  argument_statements, location_statement, location_statements, server_config_text,
  IsWritableArgument, IsWritableLocation,
}

module _ {V : Type 0} where
  insert_name-fresh :
      (k : Bytes) (v : V) (m : List (Bytes × V))
      → All (λ x. same x.0 k ≡ false) m
      → insert_name k v m ≡ m ++ ((k, v) ∷ [])
  unfolding insert_name
  insert_name-fresh k v [] h = refl
  insert_name-fresh k v ((j, w) ∷ m) (h, hs) =
      rw h (ap (λ x. (j, w) ∷ x) (insert_name-fresh k v m hs))

  -- In a list without a name twice, what stands in front of a pair has another name.
  fresh_behind :
      (done rest : List (Bytes × V)) (k : Bytes) (v : V)
      → IsDistinct (done ++ ((k, v) ∷ rest))
      → All (λ x. same x.0 k ≡ false) done
  fresh_behind [] rest k v h = tt
  fresh_behind ((j, w) ∷ done) rest k v (h, hs) = (
    ground (
      arith,
      same_iff j k,
      same_iff k j,
      All-at (λ x. same x.0 j ≡ false) (done ++ ((k, v) ∷ rest)) done rest (k, v) refl h,
    ),
    fresh_behind done rest k v hs,
  )

read_argument :
    (k v : Bytes) (l : LocationConfig)
    → same k (codes "handler") ≡ false
    → read_directive (k ∷ v ∷ []) l ≡ record l { args = insert_name k v l.args }
unfolding read_directive
read_argument k v l h = elim (Bool-cases (same k (codes "root"))) [
  | inl root ↦ rw (h, root, (same_iff k (codes "root")).0 root)
  | inr a ↦ elim (Bool-cases (same k (codes "data_path"))) [
    | inl data_path ↦ rw (h, a, data_path, (same_iff k (codes "data_path")).0 data_path)
    | inr b ↦ rw (h, a, b)
  ]
]

read_arguments :
    (args done : List (Bytes × Bytes)) (path name : Bytes)
    → All IsWritableArgument args
    → IsDistinct (done ++ args)
    → read_directives
        (statements (argument_statements args))
        (record { path = path; handler_name = name; args = done })
      ≡ record { path = path; handler_name = name; args = done ++ args }
unfolding read_directives tokens
read_arguments [] done path name ok h =
    ap (λ (x : List (Bytes × Bytes)). record { path = path; handler_name = name; args = x })
      (sym (append-nil done))
read_arguments ((k, v) ∷ args) done path name (ok, oks) h =
    let fresh = fresh_behind done args k v h in
    let next = done ++ ((k, v) ∷ []) in
    let at : List (Bytes × Bytes) → LocationConfig =
      λ x. record { path = path; handler_name = name; args = x } in
    ap (read_directives (statements (argument_statements args)))
      (read_argument k v (at done) ok.2 ∙ ap at (insert_name-fresh k v done fresh))
    ∙ read_arguments args next path name oks (rw (append_assoc done ((k, v) ∷ []) args) h)
    ∙ ap at (append_assoc done ((k, v) ∷ []) args)

-- The block of a location is read as that location.
location_of-text :
    (l : LocationConfig)
    → IsWritableLocation l
    → read_directives
        (simple (codes "handler" ∷ l.handler_name ∷ []) ∷ statements (argument_statements l.args))
        (record { path = l.path; handler_name = []; args = [] })
      ≡ l
unfolding read_directives read_directive tokens same
location_of-text l w = read_arguments l.args [] l.path l.handler_name w.arguments w.distinct

-- What a configuration serves once its locations are read.
abbrev with_locations : List LocationConfig → ServerConfig → ServerConfig
with_locations ls c = record { port = c.port; locations = c.locations ++ ls }

token_nonempty : (t : Bytes) → IsToken t → is_empty t ≡ false
token_nonempty [] h = elim h [ ]
token_nonempty (c ∷ t) h = refl

register-known :
    (l : LocationConfig) (x : Extraction)
    → IsWritableLocation l
    → (register_location l x).config ≡ with_locations (l ∷ []) x.config
unfolding register_location register_handler_for_location
register-known l x w =
    rw (token_nonempty l.handler_name w.handler_token, w.known, register_handler_for_location)

read_location_statement :
    (l : LocationConfig) (x : Extraction)
    → IsWritableLocation l
    → read_server_statement (tokens (location_statement l)) (child (location_statement l)) x
      ≡ register_location l x
unfolding read_server_statement tokens same read_location location_of
read_location_statement l x w =
    ap (λ (k : LocationConfig). register_location k x) (location_of-text l w)

read_location_statements :
    (ls : List LocationConfig) (x : Extraction)
    → All IsWritableLocation ls
    → (read_server_block (statements (location_statements ls)) x).config
      ≡ with_locations ls x.config
unfolding read_server_block
read_location_statements [] x w =
    ap (λ (ls : List LocationConfig). record { port = x.config.port; locations = ls })
      (sym (append-nil x.config.locations))
read_location_statements (l ∷ ls) x (w, ws) =
    ap (λ (y : Extraction). (read_server_block (statements (location_statements ls)) y).config)
      (read_location_statement l x w)
    ∙ read_location_statements ls (register_location l x) ws
    ∙ ap (with_locations ls) (register-known l x w)
    ∙ ap (λ (ks : List LocationConfig). record { port = x.config.port; locations = ks })
        (append_assoc x.config.locations (l ∷ []) ls)

to_int16-small : (n : ℕ) → n < 32768 → to_int16 (n % 65536) ≡ pos n
unfolding to_int16
to_int16-small n h = ground arith

-- The port and the locations that the text names are those of the extracted configuration.
pub extract_server_config-text :
    (port : ℕ) (ls : List LocationConfig) (default_port : ℤ) (reg : Registry)
    → port < 32768
    → All IsWritableLocation ls
    → (extract_server_config (server_config_text port ls) default_port reg).config
      ≡ record { port = pos port; locations = ls }
unfolding extract_server_config read_top_level is_server tokens same read_server_block
    read_server_statement
extract_server_config-text port ls default_port reg small w =
    read_location_statements ls _ w
    ∙ ap (λ (p : ℤ). record { port = p; locations = ls })
        (port_of-to_decimal port (omega arith) ∙ to_int16-small port small)
