-- ===== src/Server/Deployed.antt =====
-- From the text of a configuration to what `main` (src/server_main.cc) serves and how it routes.
use mathlib.Core.List.{Memᴰ}
use mathlib.Core.List.Memᴰ
use mathlib.Core.Path.{subst}
use ucla_bathroom_ratings.Base.{
  All, Bytes, same, same_iff, ℕ, suc, ◌<◌, ◌≡◌, refl, sym, ap, ◌∙◌, ◌≢◌, ◌⊎◌, inl, inr, true, false,
  Option, some, List, [], ◌∷◌, arith,
}
use ucla_bathroom_ratings.Config.Syntax.{NginxConfig, to_string}
use ucla_bathroom_ratings.Server.Location.{LocationConfig, ServerConfig}
use ucla_bathroom_ratings.Server.ConfigText.{
  server_config_text, IsWritableLocation, text-IsPrintable,
}
use ucla_bathroom_ratings.Base.Int.{pos}
use ucla_bathroom_ratings.Config.RoundTrip.{parse-to_string}
use ucla_bathroom_ratings.Server.Registry.{
  HandlerFactory, create, Registry, factory_for, not_found_handler,
}
use ucla_bathroom_ratings.Server.Dispatcher.{create_handler}
use ucla_bathroom_ratings.Server.Matching.{AllWithin, IsBest}
use ucla_bathroom_ratings.Server.Startup.{load_config}
use ucla_bathroom_ratings.Server.Routing.{Routes, create_handler-Routes, CanStart}
use ucla_bathroom_ratings.Server.Accept.{
  Server, new_server, ServerEvent, MainResult, run_main, Ending, ending_of, serve, main, serves,
  aborts,
}
use ucla_bathroom_ratings.Config.Parser.{parse}
use ucla_bathroom_ratings.Server.Tally.{tally}
use ucla_bathroom_ratings.Server.AcceptLoop.{Kept, Threw, server_run-IsTallied}
use ucla_bathroom_ratings.Server.Session.{Services}
use ucla_bathroom_ratings.Server.ConfigReading.{extract_server_config-text}
use ucla_bathroom_ratings.Server.Launch.{extracted, run_main-started}

-- No path stands twice.
abbrev pub DistinctPaths : List LocationConfig → Type 0
DistinctPaths [] = Unit
DistinctPaths (l ∷ ls) = All (λ k. same k.path l.path ≡ false) ls × DistinctPaths ls

-- A port that fits into a `short` and is not 0, and at least one location, each written in tokens.
pub record IsDeployable (port : ℕ) (ls : List LocationConfig) : Type 0 where
  pub port_ne : 0 < port
  pub port_small : port < 32768
  pub located : ls ≢ []
  pub writable : All IsWritableLocation ls
  pub distinct_paths : DistinctPaths ls

abbrev pub config_text : ℕ → List LocationConfig → Bytes
config_text port ls = to_string 0 (server_config_text port ls)

loads-parsed :
    (text : Bytes) (c : NginxConfig)
    → parse text ≡ some (true, c)
    → load_config (some text) ≡ some c
unfolding load_config
loads-parsed text c h = rw (h, load_config)

text_loads :
    (port : ℕ) (ls : List LocationConfig)
    → All IsWritableLocation ls
    → load_config (some (config_text port ls)) ≡ some (server_config_text port ls)
text_loads port ls h =
    loads-parsed (config_text port ls) (server_config_text port ls)
      (parse-to_string (server_config_text port ls) (λ e. cc) (text-IsPrintable port ls h))

-- Locations with the same path are one, where no path stands twice.
first_owner :
    (ls : List LocationConfig) (k l : LocationConfig)
    → All (λ x. same x.path l.path ≡ false) ls
    → Memᴰ k ls
    → k.path ≢ l.path
first_owner [] k l h m = elim m [ ]
first_owner (x ∷ ls) k l (h, hs) (Memᴰ.head e) = λ p.
    let equal = (same_iff x.path l.path).1 (ap (λ (y : LocationConfig). y.path) (sym e) ∙ p) in cc
first_owner (x ∷ ls) k l (h, hs) (Memᴰ.tail m) = first_owner ls k l hs m

one_owner :
    (ls : List LocationConfig) (k l : LocationConfig)
    → DistinctPaths ls
    → Memᴰ k ls
    → Memᴰ l ls
    → k.path ≡ l.path
    → k ≡ l
one_owner [] k l h m n p = elim m [ ]
one_owner (x ∷ ls) k l (h, hs) (Memᴰ.head e) (Memᴰ.head d) p = e ∙ sym d
one_owner (x ∷ ls) k l (h, hs) (Memᴰ.head e) (Memᴰ.tail m) p =
    absurd (first_owner ls l x h m (sym p ∙ ap (λ (y : LocationConfig). y.path) e))
one_owner (x ∷ ls) k l (h, hs) (Memᴰ.tail m) (Memᴰ.head d) p =
    absurd (first_owner ls k x h m (p ∙ ap (λ (y : LocationConfig). y.path) d))
one_owner (x ∷ ls) k l (h, hs) (Memᴰ.tail m) (Memᴰ.tail n) p = one_owner ls k l hs m n p

-- The handler that the best of the locations names, or the not-found handler where none matches.
abbrev pub RoutedByText : List LocationConfig → Registry → Bytes → Type 0
RoutedByText ls reg url =
    (AllWithin url 0 ls × (create_handler reg ls url ≡ not_found_handler))
    ⊎ ((l : LocationConfig) × IsBest url ls l
        × ((f : HandlerFactory) × (factory_for l ≡ some f)
            × (create_handler reg ls url ≡ create f)))

routed :
    (ls : List LocationConfig) (reg : Registry) (url : Bytes)
    → DistinctPaths ls
    → Routes ls reg url
    → RoutedByText ls reg url
routed ls reg url d (inl x) = inl x
routed ls reg url d (inr r) =
    let l_in : Memᴰ r.location ls =
      subst (Memᴰ r.location) (sym r.best.splits)
        (Memᴰ.append_right r.best.before (Memᴰ.head refl)) in
    let owner_is =
      one_owner ls r.registered.owner r.location d r.registered.listed l_in
        r.registered.same_path in
    inr (
      r.location,
      r.best,
      (r.registered.factory, ap factory_for (sym owner_is) ∙ r.registered.made, r.built),
    )

pos-ne : (n : ℕ) → 0 < n → pos n ≢ pos 0
pos-ne n h = λ e. ground arith

module _ {W : Type 0} (services : Services W) where
  abbrev pub ending : ℕ → List LocationConfig → Registry → ℕ → List ServerEvent → W → Option Ending
  ending port ls reg threads es w =
      (main services 2 (some (config_text port ls)) reg true threads es w).0

  -- With at least one thread the program ends as the tally of the events says, or is aborted since
  -- a callback of a session throws before that.
  abbrev pub EndsAsTold :
      ℕ → List LocationConfig → Registry → Registry → ℕ → List ServerEvent → W → Type 0
  EndsAsTold port ls reg registry threads es w =
      (Kept services registry ls es new_server w
        × (ending port ls reg (suc threads) es w ≡ ending_of (tally es).status))
      ⊎ (Threw services registry ls es new_server w
          × (ending port ls reg (suc threads) es w ≡ some aborts))

  -- What a file with the text of a port and some locations makes of the program.
  pub record IsDeployed (port : ℕ) (ls : List LocationConfig) (reg : Registry) : Type 0 where
    pub registry : Registry
    pub serves_text : run_main 2 (some (config_text port ls)) reg ≡ (registry, serves (pos port) ls)
    pub routes : (url : Bytes) → RoutedByText ls registry url
    pub ends :
        (threads : ℕ) (es : List ServerEvent) (w : W) → EndsAsTold port ls reg registry threads es w

  -- A configuration is served as its text says. For a port from 1 to 32767 and a list of
  -- locations that is not empty, with known handlers, paths and arguments written as tokens, no
  -- path twice, no argument twice in a location and none called `handler`: `main` with the
  -- printed text as the file serves that port and exactly these locations in their order,
  -- whatever was registered before; a URL gets the handler that the best of the locations names,
  -- and the not-found handler where none matches; and where the acceptor opens and there is a
  -- thread, the program ends as the first signal without an error or the first peer that has gone
  -- says, and not before, unless a callback of a session throws before that, which aborts it.
  pub main-IsDeployed :
      (port : ℕ) (ls : List LocationConfig) (reg : Registry)
      → IsDeployable port ls
      → IsDeployed port ls reg
  unfolding main serve ending_of
  main-IsDeployed port ls reg d =
      let c = server_config_text port ls in
      let x = extracted c reg in
      let text : x.config ≡ record { port = pos port; locations = ls } =
        extract_server_config-text port ls (pos 8080) reg d.port_small d.writable in
      let s : CanStart 2 (some (config_text port ls)) (pos 8080) reg = record {
        two = refl;
        config = c;
        loads = text_loads port ls d.writable;
        located = λ e. d.located (sym (ap (λ (k : ServerConfig). k.locations) text) ∙ e);
        port_ne = λ e. pos-ne port d.port_ne (sym (ap (λ (k : ServerConfig). k.port) text) ∙ e);
      } in
      let runs =
        run_main-started 2 (some (config_text port ls)) reg s
        ∙ ap (λ (k : ServerConfig). (x.registry, serves k.port k.locations)) text in
      record {
        registry = x.registry;
        serves_text = runs;
        routes = λ url. routed ls x.registry url d.distinct_paths (
            subst (λ (k : ServerConfig). Routes k.locations x.registry url) text
              (create_handler-Routes c (pos 8080) reg url));
        ends = λ threads es w.
            let served =
              ap (λ (y : Registry × MainResult). (serve services y.0 y.1 true (suc threads) es w).0)
                runs in
            elim (server_run-IsTallied services x.registry ls es new_server w refl refl) [
              | inl k ↦ inl (k, served ∙ ap ending_of k.told.status_told)
              | inr h ↦ inr (h, served ∙ ap (λ (v : Server). ending_of v.status) h.ends_as)
            ];
      }
