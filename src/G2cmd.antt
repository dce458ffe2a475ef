-- ===== src/G2cmd.antt =====
-- g2cmd/: what the commands do. The shell, the database and the workers are parameters; a process that
-- ends by `log.Fatal` is `none`.
pub mod Stop
pub mod Flags
pub mod Tests
use gof.Base.{
  Bool, true, false, not, Option, none, some, List, [], ◌∷◌, ◌++◌, if◌then◌else◌, Text, codes,
}
use gof.Base.Path.{base, join_path}
use gof.Fault.{ok, err, Action}
use gof.G2util.Exec.{Shell, process_is_running, kill_process}

-- the root of the files, and the program's own first argument
pub record Place : Type 0 where
  pub root_path : Text
  pub arg0 : Text

-- `binaryName`
unfoldable pub binary_name : Place → Text
unfolding base join_path
binary_name p = join_path p.root_path (base p.arg0)

-- the name by which `start` and `stop` find the running program
unfoldable pub pro_name : Place → Text
unfolding binary_name base
pro_name p = base (binary_name p) ++ codes " -s start"

-- a worker that was set, or none
unfoldable pub run_worker : {W : Type 0} → Option (W → W) → W → W
run_worker none w = w
run_worker (some f) w = f w

module _ {W : Type 0} (sh : Shell W) (p : Place) where
  -- `startCmd.Run`; `truncate` empties the file of the output
  unfoldable pub start_run : Bool → Option (W → W) → (W → W) → W → W
  unfolding run_worker pro_name binary_name process_is_running
  start_run false worker truncate w = run_worker worker w
  start_run true worker truncate w =
      if process_is_running sh (pro_name p) w
      then w
      else sh.start (binary_name p ++ codes " -s start") (truncate w)

  -- The goroutine of `stopCmd.Run`: at each tick, until which the world changes, it looks for the
  -- program; none if the ticks given are not enough.
  unfoldable pub wait_stopped : List (W → W) → W → Option W
  unfolding process_is_running pro_name
  wait_stopped [] w = none
  wait_stopped (t ∷ ts) w =
      let later = wait_stopped ts (t w) in
      if not (process_is_running sh (pro_name p) (t w)) then some (t w) else later

  -- `stopCmd.Run`: a program that does not run ends the command at once
  unfoldable pub stop_run : List (W → W) → W → Option W
  unfolding wait_stopped kill_process
  stop_run ticks w =
      let (r, w') = kill_process sh (pro_name p) w in
      elim r [ err e ↦ some w' | ok _ ↦ wait_stopped ticks w' ]

  -- `restartCmd.Run`
  unfoldable pub restart_run : W → W
  unfolding binary_name
  restart_run w =
      sh.run (binary_name p ++ codes " start -d") (sh.run (binary_name p ++ codes " stop") w)

module _ {W : Type 0} (drop_database pub_del_mem_all : Action W (Unit {0})) where
  -- `migrateCmd.Run`; an error of the publication is only logged
  unfoldable pub migrate_run : Bool → Option (W → W) → W → Option W
  unfolding run_worker
  migrate_run false run_func w = some (run_worker run_func w)
  migrate_run true run_func w =
      let (r, w') = drop_database w in
      elim r [ err e ↦ none | ok _ ↦ some (run_worker run_func (pub_del_mem_all w').1) ]

  -- `rootCmd.Run` behind the flag of the version
  unfoldable pub root_run : Bool → Option (W → W) → W → W
  unfolding run_worker
  root_run clean_cache run_func w =
      run_worker run_func (if clean_cache then (pub_del_mem_all w).1 else w)
