-- ===== src/Server/Launch.antt =====
-- What `main` (src/server_main.cc) does with what `initialize_from_args` gives it.
use ucla_bathroom_ratings.Base.{
  Bool-cases, Bytes, ℕ, ◌≡◌, ap, ◌∙◌, ◌≢◌, ◌⊎◌, inl, inr, false, Option, [], arith,
}
use ucla_bathroom_ratings.Base.Int.{same_int_iff, pos}
use ucla_bathroom_ratings.Config.Syntax.{NginxConfig}
use ucla_bathroom_ratings.Server.Registry.{Registry}
use ucla_bathroom_ratings.Server.Dispatcher.{init_from_server_config}
use ucla_bathroom_ratings.Server.Startup.{
  Extraction, extract_server_config, ServerInitResult, is_valid, init_result,
  initialize_from_config, initialize_from_args,
}
use ucla_bathroom_ratings.Server.Registration.{AllRegistered, extract_server_config-AllRegistered}
use ucla_bathroom_ratings.Server.Routing.{
  CanStart, is_empty-of-ne, initialize_from_args-is_valid_iff,
}
use ucla_bathroom_ratings.Server.Accept.{MainResult, main_of, run_main, exits, serves}

-- The extraction that `main` starts from.
abbrev pub extracted : NginxConfig → Registry → Extraction
extracted c reg = extract_server_config c (pos 8080) reg

-- The server serves what the configuration names, and each of its locations has a factory.
pub record Serves (argc : ℕ) (file : Option Bytes) (reg : Registry) : Type 0 where
  pub can_start : CanStart argc file (pos 8080) reg
  pub runs : run_main argc file reg ≡ (
    (extracted can_start.config reg).registry,
    serves
        (extracted can_start.config reg).config.port
        (extracted can_start.config reg).config.locations,
  )
  pub registered : AllRegistered (extracted can_start.config reg)

pub record Refuses (argc : ℕ) (file : Option Bytes) (reg : Registry) : Type 0 where
  pub cannot_start : ¬ CanStart argc file (pos 8080) reg
  pub exit_code : (run_main argc file reg).1 ≡ exits 1

main_of-valid :
    (x : Extraction)
    → x.config.locations ≢ []
    → x.config.port ≢ pos 0
    → main_of (init_result x) ≡ serves x.config.port x.config.locations
unfolding main_of init_result init_from_server_config is_valid
main_of-valid x h k =
    ground (arith, same_int_iff x.config.port (pos 0), is_empty-of-ne x.config.locations h)

main_of-invalid : (r : ServerInitResult) → is_valid r ≡ false → main_of r ≡ exits 1
unfolding main_of
main_of-invalid r h = rw h

initialized :
    (argc : ℕ) (file : Option Bytes) (reg : Registry) (s : CanStart argc file (pos 8080) reg)
    → initialize_from_args argc file (pos 8080) reg
      ≡ ((extracted s.config reg).registry, init_result (extracted s.config reg))
unfolding initialize_from_args initialize_from_config
initialized argc file reg s = rw (s.two, s.loads, initialize_from_config)

pub run_main-started :
    (argc : ℕ) (file : Option Bytes) (reg : Registry) (s : CanStart argc file (pos 8080) reg)
    → run_main argc file reg ≡ (
      (extracted s.config reg).registry,
      serves (extracted s.config reg).config.port (extracted s.config reg).config.locations,
    )
unfolding run_main
run_main-started argc file reg s =
    ap (λ (x : Registry × ServerInitResult). (x.0, main_of x.1)) (initialized argc file reg s)
    ∙ ap (λ (m : MainResult). ((extracted s.config reg).registry, m))
        (main_of-valid (extracted s.config reg) s.located s.port_ne)

starting :
    (argc : ℕ) (file : Option Bytes) (reg : Registry)
    → CanStart argc file (pos 8080) reg
    → Serves argc file reg
starting argc file reg s = record {
  can_start = s;
  runs = run_main-started argc file reg s;
  registered = extract_server_config-AllRegistered s.config (pos 8080) reg;
}

-- `main` serves exactly where there are two arguments, the file loads and parses, at least one
-- location could be registered, and the port is not 0: then it serves the port and the locations of
-- the configuration, 8080 where it names no port, and each location has a factory in the registry.
-- Else it ends with exit code 1.
pub run_main-Serves :
    (argc : ℕ) (file : Option Bytes) (reg : Registry) → Serves argc file reg ⊎ Refuses argc file reg
unfolding run_main
run_main-Serves argc file reg =
    let r = initialize_from_args argc file (pos 8080) reg in
    let valid_iff = initialize_from_args-is_valid_iff argc file (pos 8080) reg in
    elim (Bool-cases (is_valid r.1)) [
      | inl valid ↦ inl (starting argc file reg (valid_iff.0 valid))
      | inr invalid ↦ inr (record {
        cannot_start = λ s. let v = valid_iff.1 s in ground arith;
        exit_code = main_of-invalid r.1 invalid;
      })
    ]
