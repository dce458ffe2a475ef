-- ===== src/App/Startup.antt =====
-- What is registered when the application runs, and in which order it is released.
use gof.Base.{
  ◌≡◌, refl, ap, ◌∙◌, ◌⊎◌, inl, inr, true, false, some, List, [], ◌∷◌, ◌++◌, map, arith,
  Option-cases, List-cases, All, Text, codes, text_eq,
}
use gof.G2util.Graceful.Signals.{IsPassed, start_signal-shut}
use gof.G2util.Graceful.{
  Phase, Arrival, sigint, sigquit, sigterm, shut, start_signal, Graceful, reg_processor,
  reg_http_server, server, process, shutdown_action,
}
use gof.G2util.Graceful.Order.{keep, shutdown_action-keep}
use gof.G2gin.Engine.{prof_server}
use gof.App.Steps.{Ledger, State}
use gof.App.{
  Parts, go_pool, mysql, redis, construct_ledger, application_fields, log_process, default_start,
  run_servers, run,
}
use gof.App.Effects.{
  fields_ledger, logged, dialled, engine_run, default_start-Does, run_servers-Does,
  reg_processors-eq,
}

constructed :
    (l : Ledger)
    → fields_ledger application_fields l
      ≡ record l { graceful = record { process_list = go_pool ∷ []; srv_list = [] } }
unfolding fields_ledger construct_ledger text_eq reg_processor
constructed l = refl

module _ {W : Type 0} (x : Parts W) where
  -- the addresses of the servers
  abbrev pub addresses : List Text
  addresses = x.settings.port ∷ elim x.settings.pprof_port [ [] ↦ [] | c ∷ s ↦ (c ∷ s) ∷ [] ]

  -- what is registered once the servers run
  abbrev registered : Graceful
  registered = record {
    process_list =
        go_pool
        ∷ log_process x (codes "sys")
        ∷ log_process x (codes "redis")
        ∷ log_process x (codes "sql")
        ∷ mysql
        ∷ redis
        ∷ log_process x (codes "web")
        ∷ x.service_processes;
    srv_list = addresses;
  }

  served :
      (engine_run x (
        logged x (codes "web") (
          dialled x (record {
            graceful = record {
              process_list =
                  go_pool ∷ log_process x (codes "sys") ∷ log_process x (codes "redis") ∷ [];
              srv_list = [];
            };
            once = true;
            sql_out = false;
          })))).graceful
      ≡ registered
  unfolding prof_server reg_http_server reg_processor
  served = elim (List-cases x.settings.pprof_port) [
    | inl p ↦ rw reg_processors-eq (ground (arith, p))
    | inr (c, s, p) ↦ rw reg_processors-eq (ground (arith, p))
  ]

  run_servers-registered :
      (args : List Text) (l : Ledger) (w : W) (t u : State W)
      → l.once ≡ false
      → l.sql_out ≡ false
      → default_start x args (l, w) ≡ some t
      → run_servers x t ≡ some u
      → u.0.graceful ≡ registered
  run_servers-registered args l w t u h k e f =
      (let begun : Ledger = record {
        graceful = record {
          process_list = go_pool ∷ log_process x (codes "sys") ∷ log_process x (codes "redis") ∷ [];
          srv_list = [];
        };
        once = true;
        sql_out = false;
      } in
        let first : t.0 ≡ begun =
          (unfold reg_processor in
            ground (
              arith,
              default_start-Does x args (l, w) t e,
              h,
              k,
              constructed (record l { once = true }),
            )) in
        let then_run : u.0 ≡ engine_run x (logged x (codes "web") (dialled x begun)) =
          run_servers-Does x t u f
          ∙ ap (λ m. engine_run x (logged x (codes "web") (dialled x m))) first in
        ap (λ (m : Ledger). m.graceful) then_run ∙ served)

  -- When an application that was not populated before has started and runs its servers, the first signal
  -- among SIGINT, SIGQUIT and SIGTERM that comes while the loop waits for one, behind signals that are
  -- dropped or ignored, ends it by a shutdown that starts with the server of the interface and that of
  -- pprof, if it has a port, then the goroutine pool, the database, the subscription and what the
  -- service registered beside, and at last the logs sys, redis, sql and web and the writers of the
  -- service: no registration is lost to the constructor of `Graceful`.
  pub run_releases :
      (args : List Text) (before after : List Arrival) (sig : Arrival) (l : Ledger) (w : W)
      (t : State W) (phase : Phase)
      → l.once ≡ false
      → l.sql_out ≡ false
      → All IsPassed before
      → sig.is_awaited ≡ true
      → (sig.signal ≡ sigint) ⊎ (sig.signal ≡ sigquit) ⊎ (sig.signal ≡ sigterm)
      → default_start x args (l, w) ≡ some t
      → run x (before ++ sig ∷ after) t ≡ some phase
      → phase
        ≡ shut (
            map server addresses
            ++ (map process (go_pool ∷ mysql ∷ redis ∷ keep false x.service_processes)
                ++ map process (
                    log_process x (codes "sys")
                    ∷ log_process x (codes "redis")
                    ∷ log_process x (codes "sql")
                    ∷ log_process x (codes "web")
                    ∷ keep true x.service_processes)))
  run_releases args before after sig l w t phase h k ign waits which e f =
      elim (Option-cases (run_servers x t)) [
        | inl n ↦ (unfold run in ground (arith, f, n))
        | inr (u, n) ↦
            (let g = run_servers-registered args l w t u h k e n in
              let ends : phase ≡ start_signal u.0.graceful (before ++ sig ∷ after) =
                (unfold run in ground (arith, f, n)) in
              let shuts : start_signal u.0.graceful (before ++ sig ∷ after)
                  ≡ shut (shutdown_action u.0.graceful) =
                start_signal-shut u.0.graceful before after sig ign waits which in
              ends
              ∙ shuts
              ∙ ap shut
                  (ap shutdown_action g ∙ shutdown_action-keep registered ∙ (unfold keep in refl)))
      ]
