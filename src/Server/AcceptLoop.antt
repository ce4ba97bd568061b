-- ===== src/Server/AcceptLoop.antt =====
-- The accept loop (src/server.cc) and the signals (src/server_main.cc) over any sequence of events.
use mathlib.Core.Path.{subst}
use ucla_bathroom_ratings.Base.{
  Bool-cases, length-append, ℕ, ◌≡◌, refl, sym, ap, ◌∙◌, ◌⊎◌, inl, inr, true, false, none, some,
  List, [], ◌∷◌, ◌++◌, arith,
}
use ucla_bathroom_ratings.Server.Location.{LocationConfig}
use ucla_bathroom_ratings.Server.Registry.{Registry}
use ucla_bathroom_ratings.Server.Session.{Session, new_session, start, Event, Services}
use ucla_bathroom_ratings.Server.Accept.{
  Server, handle_accept, handle_signal, ServerEvent, step_at, throws_at, server_step, server_run,
  running, stopped, aborted, failed, connected, accept_done, signalled, at_session,
}
use ucla_bathroom_ratings.Server.Tally.{
  tally, IsTallied, up, length-step_at, continue, run_step, server_run_cons, ended_stays, ended,
  before_throw, heard_ended,
}

module _ {W : Type 0} (services : Services W) (reg : Registry)
    (locations : List LocationConfig) where
  -- What is told of events of which none throws while the server runs.
  pub record Kept (es : List ServerEvent) (v : Server) (w : W) : Type 0 where
    pub told : IsTallied (tally es) v (server_run services reg locations es v w).0
    pub quiet : before_throw services reg locations es v w ≡ es

  abbrev run_from : List ServerEvent → List Session → W → Server × W
  run_from es ss w = server_run services reg locations es (up ss) w

  -- The callback of an event throws: the server ran and had the sessions that the events before
  -- tell, and is aborted with them. Nothing behind that event happens.
  pub record Threw (es : List ServerEvent) (v : Server) (w : W) : Type 0 where
    pub before : List ServerEvent
    pub n : ℕ
    pub event : Event
    pub after : List ServerEvent
    pub splits : es ≡ before ++ (at_session n event ∷ after)
    pub told : IsTallied (tally before) v (server_run services reg locations before v w).0
    pub still : (tally before).status ≡ running
    pub throws :
        throws_at services reg locations n event
          (server_run services reg locations before v w).0.sessions
          (server_run services reg locations before v w).1
        ≡ true
    pub ends_as :
        (server_run services reg locations es v w).0
        ≡ record (server_run services reg locations before v w).0 { status = aborted }

  -- What is told of events with one more in front.
  Shifts : ServerEvent → List Session → List Session → Type 0
  Shifts e ss ss' =
      (b : List ServerEvent) (v : Server)
      → (IsTallied (tally b) (up ss') v → IsTallied (tally (e ∷ b)) (up ss) v)
        × ((tally (e ∷ b)).status ≡ (tally b).status)

  one_later :
      (e : ServerEvent) (es : List ServerEvent) (ss ss' : List Session) (w w' : W)
      → ((b : List ServerEvent) → run_from (e ∷ b) ss w ≡ run_from b ss' w')
      → Shifts e ss ss'
      → before_throw services reg locations (e ∷ es) (up ss) w
        ≡ e ∷ before_throw services reg locations es (up ss') w'
      → Kept es (up ss') w' ⊎ Threw es (up ss') w'
      → Kept (e ∷ es) (up ss) w ⊎ Threw (e ∷ es) (up ss) w
  unfolding Shifts
  one_later e es ss ss' w w' steps shift quiet (inl k) = inl (record {
    told = rw (steps es) ((shift es (run_from es ss' w').0).0 k.told);
    quiet = quiet ∙ ap (λ (x : List ServerEvent). e ∷ x) k.quiet;
  })
  one_later e es ss ss' w w' steps shift quiet (inr h) = inr (record {
    before = e ∷ h.before;
    n = h.n;
    event = h.event;
    after = h.after;
    splits = ap (λ (x : List ServerEvent). e ∷ x) h.splits;
    told = rw (steps h.before) ((shift h.before (run_from h.before ss' w').0).0 h.told);
    still = (shift h.before (up ss)).1 ∙ h.still;
    throws = rw (steps h.before) h.throws;
    ends_as = rw (steps es, steps h.before) h.ends_as;
  })

  throwing_step :
      (n : ℕ) (e : Event) (ss : List Session) (w : W)
      → throws_at services reg locations n e ss w ≡ true
      → run_step services reg locations (at_session n e) (up ss) w
        ≡ (record (up ss) { status = aborted }, w)
  unfolding server_step
  throwing_step n e ss w t = rw t refl

  thrown_at :
      (n : ℕ) (e : Event) (es : List ServerEvent) (ss : List Session) (w : W)
      → throws_at services reg locations n e ss w ≡ true
      → Threw (at_session n e ∷ es) (up ss) w
  unfolding server_run server_step
  thrown_at n e es ss w t = record {
    before = [];
    n = n;
    event = e;
    after = es;
    splits = refl;
    told = record { status_told = refl; sessions_told = omega arith; waits = refl };
    still = refl;
    throws = t;
    ends_as =
        ap (λ (x : Server × W). x.0)
          (server_run_cons services reg locations (at_session n e) es (up ss) w refl
            ∙ ap (continue services reg locations es) (throwing_step n e ss w t)
            ∙ ended_stays services reg locations es (record (up ss) { status = aborted }) w
                (λ h. cc));
  }

  tallied :
      (es : List ServerEvent) (ss : List Session) (w : W) → Kept es (up ss) w ⊎ Threw es (up ss) w
  unfolding server_run server_step handle_accept handle_signal Shifts before_throw
  tallied [] ss w = inl (record {
    told = record { status_told = refl; sessions_told = omega arith; waits = refl };
    quiet = refl;
  })
  tallied (accept_done failed ∷ es) ss w =
      one_later (accept_done failed) es ss ss w w (λ b. refl) (λ b v. (λ t. t, refl)) refl
        (tallied es ss w)
  tallied (accept_done (connected none) ∷ es) ss w = inl (record {
    told = ended services reg locations es aborted (λ h. cc) ss w;
    quiet =
        ap (λ x. accept_done (connected none) ∷ x)
          (heard_ended services reg locations es aborted (λ h. cc) ss none w);
  })
  tallied (accept_done (connected (some peer)) ∷ es) ss w =
      let ss' = ss ++ (start peer new_session ∷ []) in
      one_later (accept_done (connected (some peer))) es ss ss' w w (λ b. refl)
        (λ b v. (
          λ t. record {
            status_told = t.status_told;
            sessions_told =
                omega (arith, t.sessions_told, length-append {0} ss (start peer new_session ∷ []));
            waits = t.waits;
          },
          refl,
        ))
        refl (tallied es ss' w)
  tallied (signalled true ∷ es) ss w = inl (record {
    told = ended services reg locations es stopped (λ h. cc) ss w;
    quiet =
        ap (λ x. signalled true ∷ x)
          (heard_ended services reg locations es stopped (λ h. cc) ss (some new_session) w);
  })
  tallied (signalled false ∷ es) ss w =
      one_later (signalled false) es ss ss w w (λ b. refl) (λ b v. (λ t. t, refl)) refl
        (tallied es ss w)
  tallied (at_session n e ∷ es) ss w =
      let x = step_at services reg locations n e ss w in
      elim (Bool-cases (throws_at services reg locations n e ss w)) [
        | inl t ↦ inr (thrown_at n e es ss w t)
        | inr good ↦
            one_later (at_session n e) es ss x.0 w x.1 (λ b. rw (good, server_run) refl)
              (λ b v. (
                λ t. record {
                  status_told = t.status_told;
                  sessions_told =
                      omega
                        (arith, t.sessions_told, length-step_at services reg locations n e ss w);
                  waits = t.waits;
                },
                refl,
              ))
              (rw (good, before_throw) refl) (tallied es x.0 x.1)
      ]

  -- The loop accepts until its first end: for any events in any order, a failed accept, a signal
  -- that comes with an error and what happens to a session whose callback returns leave it
  -- running, each connection adds one session, and it waits for the next connection with a new
  -- session. The first signal without an error stops it and the first peer that has gone before
  -- `remote_endpoint` asks for it aborts it, and no connection behind that is accepted. Or, before
  -- any of that, a session's callback throws: then the events before tell what ran and how many
  -- sessions there were, and with them the program is aborted.
  pub server_run-IsTallied :
      (es : List ServerEvent) (v : Server) (w : W)
      → v.status ≡ running
      → v.accepting ≡ some new_session
      → Kept es v w ⊎ Threw es v w
  server_run-IsTallied es v w r h =
      subst (λ (u : Server). Kept es u w ⊎ Threw es u w)
        (λ i. record { sessions = v.sessions; accepting = sym h i; status = sym r i })
        (tallied es v.sessions w)
