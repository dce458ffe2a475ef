-- ===== src/App.antt =====
-- gof.go: the application, how its parts are constructed, started and stopped. What a part does beside the
-- others is a parameter over a world `W`; the registrations at the graceful shutdown, the flag of
-- `populateOnce` and that of the log of the database are written out. A process that ends by `log.Fatal`
-- or by a panic is none.
pub mod Steps
pub mod Effects
pub mod Startup
pub mod Commands
pub mod Tests
use gof.Base.{
  ℕ, true, false, Option, none, some, List, [], ◌∷◌, if◌then◌else◌, Text, codes, text_eq,
}
use gof.G2util.Graceful.{
  Process, Graceful, Phase, reg_processor, reg_http_server, start_signal, Arrival,
}
use gof.G2util.Fields.{Field, pointer, other, struct, ptr, populate_constructor}
use gof.G2gin.Engine.{Settings, prof_server}
use gof.App.Steps.{Ledger, State, Step, on_world, on_ledger, ◌>>◌}

-- What the parts do: injection, constructors by the name of the type, the configuration, the logs, the
-- database, Redis, the engine, the registration of tables, and the migration; `number` tells the
-- processes apart that the logs are.
pub record Parts (W : Type 0) : Type 0 where
  pub inject : W → Option W
  pub construct : Text → W → Option W
  pub load_config : List Text → W → Option W
  pub set_loggers : W → W
  pub log_io : Text → W → Option W
  pub number : Text → ℕ
  pub new_engine : W → Option W
  pub configure : W → Option W
  pub subscribe : W → Option W
  pub wire_engine : W → Option W
  pub settings : Settings
  pub service_processes : List Process
  pub inject_service : W → Option W
  pub table_register : W → Option W
  pub set_j2_service : W → W
  pub migrate : W → Option W

-- the processes that the shutdown releases
abbrev pub go_pool : Process
go_pool = record { id = 0; is_writer = false }

abbrev pub mysql : Process
mysql = record { id = 1; is_writer = false }

abbrev pub redis : Process
redis = record { id = 2; is_writer = false }

-- a field of `Application` by the type that it points to
abbrev pub part : Text → Field (Unit {0})
part name = record {
  tags = (codes "inject", []) ∷ [];
  exported = true;
  content = pointer name (some tt);
}

-- the fields of `Application` behind their injection, in their order
abbrev pub application_fields : List (Field (Unit {0}))
application_fields =
    part (codes "Config")
    ∷ record { tags = (codes "inject", []) ∷ []; exported = true; content = other }
    ∷ part (codes "G2cron")
    ∷ part (codes "Instance")
    ∷ part (codes "RestyAgent")
    ∷ part (codes "AbFile")
    ∷ part (codes "Graceful")
    ∷ part (codes "GoPool")
    ∷ part (codes "G2gin")
    ∷ part (codes "G2cmd")
    ∷ part (codes "Mysql")
    ∷ part (codes "Token")
    ∷ part (codes "Captcha")
    ∷ part (codes "Emq")
    ∷ record { tags = []; exported = false; content = other }
    ∷ []

-- what a constructor does to the ledger: that of `Graceful` begins with empty lists, that of `GoPool`
-- registers the pool
unfoldable pub construct_ledger : Text → Ledger → Ledger
unfolding text_eq reg_processor
construct_ledger name l =
    if text_eq name (codes "Graceful")
    then record l { graceful = record { process_list = []; srv_list = [] } }
    else if text_eq name (codes "GoPool")
    then record l { graceful = reg_processor go_pool l.graceful }
    else l

-- what a service registers in its router
unfoldable pub reg_processors : List Process → Graceful → Graceful
unfolding reg_processor
reg_processors [] g = g
reg_processors (p ∷ ps) g = reg_processors ps (reg_processor p g)

module _ {W : Type 0} (x : Parts W) where
  unfoldable pub constructor_of : Text → Option (Option (Unit {0}) → Step W)
  unfolding construct_ledger
  constructor_of name =
      some (λ p. do on_world (x.construct name); on_ledger (construct_ledger name))

  -- `Populate`
  unfoldable pub first_populate : Step W
  unfolding constructor_of populate_constructor
  first_populate = do
    on_ledger (λ l. record l { once = true })
    on_world x.inject
    populate_constructor constructor_of (ptr (struct application_fields))

  unfoldable pub populate : Step W
  unfolding first_populate
  populate (l, w) = if l.once then some (l, w) else first_populate (l, w)

  abbrev pub log_process : Text → Process
  log_process name = record { id = x.number name; is_writer = true }

  -- `MustLogIO`
  unfoldable pub open_log : Text → Step W
  unfolding reg_processor
  open_log name = do
    on_world (x.log_io name)
    on_ledger (λ l. record l { graceful = reg_processor (log_process name) l.graceful })

  -- `LoadWithConfig`
  unfoldable pub load_with_config : List Text → Step W
  unfolding populate
  load_with_config args = do populate; on_world (x.load_config args)

  -- `LoadLogger`
  unfoldable pub load_logger : Step W
  unfolding open_log
  load_logger = do
    open_log (codes "sys")
    open_log (codes "redis")
    on_world (λ w. some (x.set_loggers w))

  -- `Default`
  unfoldable pub default_start : List Text → Step W
  unfolding load_with_config load_logger
  default_start [] = do load_with_config ([] ∷ codes "conf" ∷ []); load_logger
  default_start (a ∷ as') = do load_with_config (a ∷ as'); load_logger

  -- `Mysql.getOut`: the log is opened the first time
  unfoldable pub get_out : Step W
  unfolding open_log
  get_out (l, w) =
      if l.sql_out
      then some (l, w)
      else (do open_log (codes "sql"); on_ledger (λ m. record m { sql_out = true })) (l, w)

  -- `Mysql.Dial`: an error of the dialling ends the process
  unfoldable pub dial : Step W
  unfolding get_out reg_processor
  dial = do
    on_world x.new_engine
    get_out
    on_world x.configure
    on_world x.subscribe
    on_ledger (λ l. record l { graceful = reg_processor redis (reg_processor mysql l.graceful) })

  -- `G2gin.Run` with what the service's router registers
  unfoldable pub gin_run : Step W
  unfolding open_log reg_processors prof_server reg_http_server
  gin_run = do
    open_log (codes "web")
    on_world x.wire_engine
    on_ledger (λ l. record l {
      graceful =
          prof_server x.settings
            (reg_http_server x.settings.port (reg_processors x.service_processes l.graceful));
    })

  -- `Run` until it waits for signals
  unfoldable pub run_servers : Step W
  unfolding dial gin_run
  run_servers = do dial; gin_run

  -- `Run` on the signals that come
  unfoldable pub run : List Arrival → State W → Option Phase
  unfolding run_servers start_signal
  run signals s = elim (run_servers s) [
    | none ↦ none
    | some (l, w) ↦ some (start_signal l.graceful signals)
  ]
