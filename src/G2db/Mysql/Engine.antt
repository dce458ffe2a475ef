-- ===== src/G2db/Mysql/Engine.antt =====
-- g2db/mysql.go: the name and the address of the database, the engine and its settings, and `migrate`.
-- The driver, viper and cast are parameters.
use gof.Base.{
  ℕ, ◌*◌, ◌%◌, ◌^◌, Bool, true, false, not, ◌||◌, [], ◌∷◌, ◌++◌, if◌then◌else◌, Text, codes,
  text_eq,
}
use gof.Base.Int.{ℤ}
use gof.Base.Replace.{replace_all}
use gof.Fault.{ok, Action, pure, ◌>>=◌, ◌>>◌}

-- what viper holds for this part
pub record Viper : Type 0 where
  pub name : Text
  pub db : Text
  pub dsn : Text
  pub host : Text
  pub log_level : Text
  pub settings : Text → Text

-- `cast`; a duration is the 64 bits of Go's
pub record Cast : Type 0 where
  pub to_bool : Text → Bool
  pub to_int : Text → ℤ
  pub to_duration : Text → ℕ

-- `log2.LogLevel`
pub data LogLevel : Type 0 where
  log_off : LogLevel
  log_debug : LogLevel
  log_info : LogLevel
  log_warning : LogLevel
  log_err : LogLevel

pub record Settings : Type 0 where
  pub cache_disabled : Bool
  pub level : LogLevel
  pub show_sql : Bool
  pub lifetime : ℕ
  pub max_idle : ℤ
  pub max_open : ℤ

-- Engines are named by `E`.
pub record Xorm (W E : Type 0) : Type 0 where
  pub new_engine : Text → Action W E
  pub configure : E → Settings → W → W
  pub ping : E → Action W (Unit {0})
  pub exec : E → Text → Action W (Unit {0})
  pub close : E → Action W (Unit {0})

-- `DbName`
unfoldable pub db_name : Viper → Text
db_name v = elim v.db [ [] ↦ v.name | c ∷ s ↦ c ∷ s ]

-- `getDataSource`
unfoldable pub get_data_source : Viper → Bool → Text
unfolding db_name replace_all
get_data_source v with_db =
    let dsn = replace_all (codes "{host}") v.host v.dsn in
    if with_db
    then replace_all (codes "{db}") (db_name v) dsn
    else replace_all (codes "{db}") [] dsn

-- `_logLevel`
unfoldable pub log_level : Text → LogLevel
unfolding text_eq
log_level lvl =
    if text_eq lvl (codes "warn") || text_eq lvl (codes "warning")
    then log_warning
    else if text_eq lvl (codes "error")
    then log_err
    else if text_eq lvl (codes "debug")
    then log_debug
    else if text_eq lvl (codes "info")
    then log_info
    else log_off

-- a second in nanoseconds
abbrev pub second : ℕ
second = 1000000000

-- the settings that `dial` makes; the product wraps around as Go's does
unfoldable pub settings_of : Cast → Viper → Settings
unfolding log_level
settings_of c v = record {
  cache_disabled = not (c.to_bool (v.settings (codes "use_cache")));
  level = log_level v.log_level;
  show_sql = c.to_bool (v.settings (codes "show_sql"));
  lifetime = (c.to_duration (v.settings (codes "max_conn_lifetime_seconds")) * second) % 2 ^ 64;
  max_idle = c.to_int (v.settings (codes "max_idle_connections"));
  max_open = c.to_int (v.settings (codes "max_open_connections"));
}

module _ {W E : Type 0} (x : Xorm W E) (c : Cast) (v : Viper) where
  -- `DialWithMysql`: the engine is closed in any case, and an error of that is dropped
  unfoldable pub dial_with_mysql : (E → Action W (Unit {0})) → Action W (Unit {0})
  unfolding get_data_source
  dial_with_mysql fn = do
    e ← x.new_engine (get_data_source v false)
    (λ w. let (r, w') = fn e w in (r, (x.close e w').1))

  -- `ExecSqOnNewEngine`
  unfoldable pub exec_sq_on_new_engine : Text → Action W (Unit {0})
  unfolding get_data_source
  exec_sq_on_new_engine sq = do
    e ← x.new_engine (get_data_source v false)
    (λ w. let (r, w') = x.exec e sq w in (r, (x.close e w').1))

  -- `createDB`
  unfoldable pub create_db : Action W (Unit {0})
  unfolding exec_sq_on_new_engine db_name
  create_db =
      exec_sq_on_new_engine (codes "CREATE DATABASE IF NOT EXISTS " ++ (db_name v ++ codes ";"))

  -- `DropDatabase`
  unfoldable pub drop_database : Action W (Unit {0})
  unfolding exec_sq_on_new_engine db_name
  drop_database =
      exec_sq_on_new_engine (codes "DROP DATABASE IF EXISTS " ++ (db_name v ++ codes ";"))

  -- `dial`: the engine that it leaves; one that does not answer is not closed
  unfoldable pub dial : Action W E
  unfolding get_data_source settings_of
  dial = do
    e ← x.new_engine (get_data_source v true)
    (λ w. (ok tt, x.configure e (settings_of c v) w))
    x.ping e
    pure e

  -- `migrate`, with `sync` on an engine: after an error the engine stays open
  unfoldable pub migrate : (E → Action W (Unit {0})) → Action W (Unit {0})
  unfolding create_db dial
  migrate sync = do create_db; e ← dial; sync e; (λ w. (ok tt, (x.close e w).1))
