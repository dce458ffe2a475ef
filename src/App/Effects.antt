-- ===== src/App/Effects.antt =====
-- What each step of the start does to the ledger.
use gof.Base.{
  ◌≡◌, refl, inl, inr, true, some, List, [], ◌∷◌, ◌++◌, append_assoc, append-nil, arith,
  if◌then◌else◌, Bool-cases, Option-cases, Text, codes,
}
use gof.G2util.Graceful.{Process, Graceful, reg_processor, reg_http_server}
use gof.G2util.Fields.{
  Field, Content, pointer, other, construct_field, construct_fields, populate_constructor,
  value_indirect,
}
use gof.G2gin.Engine.{prof_server}
use gof.App.Steps.{Ledger, on_world, on_ledger, ◌>>◌, Does, Does->>, Does-on_world, Does-on_ledger}
use gof.App.{
  Parts, mysql, redis, construct_ledger, constructor_of, application_fields, reg_processors,
  log_process, open_log, first_populate, populate, load_with_config, load_logger, default_start,
  get_out, dial, gin_run, run_servers,
}

-- what the constructors of fields do to the ledger
unfoldable pub field_ledger : Field (Unit {0}) → Ledger → Ledger
field_ledger f l = elim f.content [ other ↦ l | pointer t p ↦ construct_ledger t l ]

unfoldable pub fields_ledger : List (Field (Unit {0})) → Ledger → Ledger
unfolding field_ledger
fields_ledger [] l = l
fields_ledger (f ∷ fs) l = fields_ledger fs (field_ledger f l)

module _ {W : Type 0} (x : Parts W) where
  construct_field-Does :
      (f : Field (Unit {0})) → Does (construct_field (constructor_of x) f) (field_ledger f)
  construct_field-Does f s t e = by_content f.content refl
    where
      by_content : (c : Content (Unit {0})) → f.content ≡ c → t.0 ≡ field_ledger f s.0
      by_content other q = unfold construct_field field_ledger in ground (arith, e, q)
      by_content (pointer name p) q = elim (Bool-cases f.exported) [
        | inr h ↦ (unfold construct_field in ground (arith, e, q, h))
        | inl h ↦
            (let made =
                Does->> (on_world (x.construct name)) (on_ledger (construct_ledger name)) (λ l. l)
                  (construct_ledger name) (Does-on_world (x.construct name))
                  (Does-on_ledger (construct_ledger name)) s t in
              unfold construct_field constructor_of field_ledger in ground (arith, e, q, h, made))
      ]

  construct_fields-Does :
      (fs : List (Field (Unit {0})))
      → Does (construct_fields (constructor_of x) fs) (fields_ledger fs)
  unfolding construct_fields fields_ledger
  construct_fields-Does [] s t e = ground (arith, e)
  construct_fields-Does (f ∷ fs) s t e =
      elim (Option-cases (construct_field (constructor_of x) f s)) [
        | inl n ↦ ground (arith, e, n)
        | inr (u, n) ↦
            ground (arith, e, n, construct_field-Does f s u n, construct_fields-Does fs u t)
      ]

  open_log-Does :
      (name : Text)
      → Does
          (open_log x name)
          (λ l. record l { graceful = reg_processor (log_process x name) l.graceful })
  unfolding open_log
  open_log-Does name =
      Does->> (on_world (x.log_io name)) _ _ _ (Does-on_world (x.log_io name)) (Does-on_ledger _)

  -- the ledger after each part of the start
  abbrev pub logged : Text → Ledger → Ledger
  logged name l = record l { graceful = reg_processor (log_process x name) l.graceful }

  abbrev pub populated : Ledger → Ledger
  populated l = if l.once then l else fields_ledger application_fields (record l { once = true })

  populate-Does : Does (populate x) populated
  populate-Does (l, w) t e = elim (Bool-cases l.once) [
    | inl h ↦ (unfold populate in ground (arith, e, h))
    | inr h ↦
        (let begun : Ledger → Ledger = λ m. record m { once = true } in
          let all = fields_ledger application_fields in
          let injected : Does
              (on_world x.inject >> construct_fields (constructor_of x) application_fields) all =
            Does->> (on_world x.inject) (construct_fields (constructor_of x) application_fields)
              (λ m. m) all (Does-on_world x.inject) (construct_fields-Does application_fields) in
          let first : Does (first_populate x) (λ m. all (begun m)) =
            (unfold first_populate populate_constructor value_indirect in
              Does->> (on_ledger begun) _ begun all (Does-on_ledger begun) injected) in
          let done = first (l, w) t in unfold populate in ground (arith, e, h, done))
  ]

  get_out-Does :
      Does
        (get_out x)
        (λ l. if l.sql_out then l else record (logged (codes "sql") l) { sql_out = true })
  get_out-Does (l, w) t e = elim (Bool-cases l.sql_out) [
    | inl h ↦ (unfold get_out in ground (arith, e, h))
    | inr h ↦
        (let noted : Ledger → Ledger = λ m. record m { sql_out = true } in
          let done =
            Does->> (open_log x (codes "sql")) (on_ledger noted) (logged (codes "sql")) noted
              (open_log-Does (codes "sql")) (Does-on_ledger noted) (l, w) t in
          unfold get_out in ground (arith, e, h, done))
  ]

  load_logger-Does : Does (load_logger x) (λ l. logged (codes "redis") (logged (codes "sys") l))
  unfolding load_logger
  load_logger-Does =
      Does->> (open_log x (codes "sys")) _ _ (logged (codes "redis")) (open_log-Does (codes "sys"))
        (Does->> (open_log x (codes "redis")) _ _ (λ l. l) (open_log-Does (codes "redis"))
          (Does-on_world (λ w. some (x.set_loggers w))))

  load_with_config-Does : (args : List Text) → Does (load_with_config x args) populated
  unfolding load_with_config
  load_with_config-Does args =
      Does->> (populate x) _ _ (λ l. l) populate-Does (Does-on_world (x.load_config args))

  abbrev pub has_started : Ledger → Ledger
  has_started l = logged (codes "redis") (logged (codes "sys") (populated l))

  pub default_start-Does : (args : List Text) → Does (default_start x args) has_started
  unfolding default_start
  default_start-Does [] =
      Does->> (load_with_config x ([] ∷ codes "conf" ∷ [])) _ _ _ (load_with_config-Does _)
        load_logger-Does
  default_start-Does (a ∷ as') =
      Does->> (load_with_config x (a ∷ as')) _ _ _ (load_with_config-Does _) load_logger-Does

  abbrev pub dialled : Ledger → Ledger
  dialled l =
      let m = (if l.sql_out then l else record (logged (codes "sql") l) { sql_out = true }) in
      record m { graceful = reg_processor redis (reg_processor mysql m.graceful) }

  abbrev both : Ledger → Ledger
  both l = record l { graceful = reg_processor redis (reg_processor mysql l.graceful) }

  dial-Does : Does (dial x) dialled
  unfolding dial
  dial-Does =
      Does->> (on_world x.new_engine) _ (λ l. l) dialled (Does-on_world x.new_engine)
        (Does->> (get_out x) _ _ both get_out-Does (
          Does->> (on_world x.configure) _ (λ l. l) both (Does-on_world x.configure)
            (Does->> (on_world x.subscribe) _ (λ l. l) both (Does-on_world x.subscribe)
              (Does-on_ledger both))))

  abbrev pub engine_run : Ledger → Ledger
  engine_run l = record l {
    graceful =
        prof_server x.settings
          (reg_http_server x.settings.port (reg_processors x.service_processes l.graceful));
  }

  gin_run-Does : Does (gin_run x) (λ l. engine_run (logged (codes "web") l))
  unfolding gin_run
  gin_run-Does = Does->> (open_log x (codes "web")) _ _ engine_run (open_log-Does (codes "web")) (
      Does->> (on_world x.wire_engine) _ (λ l. l) engine_run (Does-on_world x.wire_engine)
        (Does-on_ledger engine_run))

  pub run_servers-Does : Does (run_servers x) (λ l. engine_run (logged (codes "web") (dialled l)))
  unfolding run_servers
  run_servers-Does =
      Does->> (dial x) (gin_run x) dialled (λ l. engine_run (logged (codes "web") l)) dial-Does
        gin_run-Does

-- registrations are added at the end
pub reg_processors-eq :
    (ps : List Process) (g : Graceful)
    → reg_processors ps g ≡ record g { process_list = g.process_list ++ ps }
unfolding reg_processors reg_processor
reg_processors-eq [] g = rw (append-nil g.process_list) refl
reg_processors-eq (p ∷ ps) g =
    ground
      (arith, reg_processors-eq ps (reg_processor p g), append_assoc g.process_list (p ∷ []) ps)
