-- ===== src/App/Tests.antt =====
-- A start of the application, with a world that lists what was done.
use gof.Base.{
  ℕ, ◌+◌, ◌≡◌, refl, inl, inr, true, false, Option, none, some, List, [], ◌∷◌, ◌++◌, map,
  if◌then◌else◌, length, Text, codes, text_eq,
}
use mathlib.Core.Option
use gof.Base.Dict.{put}
use gof.G2util.Graceful.{Process, Phase, sigurg, sigterm, Arrival, shut, server, process}
use gof.G2util.Graceful.Order.{keep}
use gof.G2util.Fields.{populate_constructor, value_indirect, construct_fields}
use gof.App.Steps.{Ledger, State}
use gof.App.{
  Parts, go_pool, mysql, redis, log_process, construct_ledger, reg_processors, default_start, run,
}
use gof.App.Commands.{Command, Program, run_default}
use gof.App.Startup.{addresses, run_releases}

abbrev note : Text → List Text → Option (List Text)
note t w = some (w ++ t ∷ [])

abbrev number_of : Text → ℕ
number_of t = 10 + length t

abbrev extra : List Process
extra = record { id = 7; is_writer = true } ∷ record { id = 8; is_writer = false } ∷ []

abbrev parts : Parts (List Text)
parts = record {
  inject = note (codes "inject");
  construct = λ name. note name;
  load_config = λ args. note (codes "config");
  set_loggers = λ w. w;
  log_io = λ name. note name;
  number = number_of;
  new_engine = note (codes "engine");
  configure = note (codes "ping");
  subscribe = note (codes "subscribe");
  wire_engine = note (codes "wire");
  settings = record { debug = false; api_root = []; port = codes ":80"; pprof_port = codes ":81" };
  service_processes = extra;
  inject_service = note (codes "service");
  table_register = note (codes "tables");
  set_j2_service = λ w. w ++ codes "rpc" ∷ [];
  migrate = note (codes "migrate");
}

abbrev fresh : Ledger
fresh = record {
  graceful = record { process_list = []; srv_list = [] };
  once = false;
  sql_out = false;
}

abbrev begun : State (List Text)
begun = (
  record {
    graceful = record {
      process_list =
          go_pool ∷ log_process parts (codes "sys") ∷ log_process parts (codes "redis") ∷ [];
      srv_list = [];
    };
    once = true;
    sql_out = false;
  },
  codes "inject"
      ∷ codes "Config"
      ∷ codes "G2cron"
      ∷ codes "Instance"
      ∷ codes "RestyAgent"
      ∷ codes "AbFile"
      ∷ codes "Graceful"
      ∷ codes "GoPool"
      ∷ codes "G2gin"
      ∷ codes "G2cmd"
      ∷ codes "Mysql"
      ∷ codes "Token"
      ∷ codes "Captcha"
      ∷ codes "Emq"
      ∷ codes "config"
      ∷ codes "sys"
      ∷ codes "redis"
      ∷ [],
)

begins : default_start parts [] (fresh, []) ≡ some begun
unfolding default_start populate_constructor value_indirect construct_fields construct_ledger
    text_eq
begins = refl

abbrev released : Phase
released = shut (
    server (codes ":80")
    ∷ server (codes ":81")
    ∷ process go_pool
    ∷ process mysql
    ∷ process redis
    ∷ process (record { id = 8; is_writer = false })
    ∷ process (log_process parts (codes "sys"))
    ∷ process (log_process parts (codes "redis"))
    ∷ process (log_process parts (codes "sql"))
    ∷ process (log_process parts (codes "web"))
    ∷ process (record { id = 7; is_writer = true })
    ∷ [])

-- a SIGTERM that comes while the loop is busy, one that is ignored, and one that counts
abbrev dropped : Arrival
dropped = record { signal = sigterm; is_awaited = false }

abbrev passed : Arrival
passed = record { signal = sigurg; is_awaited = true }

abbrev last : Arrival
last = record { signal = sigterm; is_awaited = true }

runs : run parts (dropped ∷ passed ∷ last ∷ []) begun ≡ some released
unfolding run reg_processors
runs = refl

run_releases_example :
    released
    ≡ shut (
        map server (addresses parts)
        ++ (map process (go_pool ∷ mysql ∷ redis ∷ keep false extra)
            ++ map process (
                log_process parts (codes "sys")
                ∷ log_process parts (codes "redis")
                ∷ log_process parts (codes "sql")
                ∷ log_process parts (codes "web")
                ∷ keep true extra)))
run_releases_example =
    run_releases parts [] (dropped ∷ passed ∷ []) [] last fresh [] begun released refl refl
      (inl refl, (inr tt, tt)) refl (inr (inr refl)) begins runs

-- what cobra does with the argument `start`
call_start : List (Command (List Text)) → State (List Text) → Option (State (List Text))
call_start [] s = none
call_start (c ∷ cs) s = if text_eq c.use_name (codes "start") then c.act s else call_start cs s

abbrev starts : Program (List Text)
starts = record {
  stop_act = note (codes "stop");
  restart_act = note (codes "restart");
  binary_name = codes "/srv/app";
  cobra = λ root cs. call_start cs;
}

run_default_noted :
    Option.map (λ (s : State (List Text)). s.1) (run_default parts starts (fresh, []))
    ≡ some (
        begun.1
        ++ codes "service"
          ∷ codes "tables"
          ∷ codes "rpc"
          ∷ codes "engine"
          ∷ codes "sql"
          ∷ codes "ping"
          ∷ codes "subscribe"
          ∷ codes "web"
          ∷ codes "wire"
          ∷ [])
unfolding run_default call_start put text_eq populate_constructor value_indirect construct_fields
    construct_ledger
run_default_noted = refl
