-- ===== src/G2util/Exec.antt =====
-- g2util/exec.go: processes found and signalled by the shell, which is a parameter.
pub mod Inner
use gof.Base.{Bool, true, false, not, List, [], ◌∷◌, ◌++◌, ◌==◌, if◌then◌else◌, Text, codes}
use gof.Base.Replace.{replace_all}
use gof.G2util.JsonTime.{trim, is_space}
use gof.Fault.{plain, ok, err, Action}

-- What a command prints, and what it does; its errors are dropped everywhere.
pub record Shell (W : Type 0) : Type 0 where
  pub output : Text → W → Text
  pub run : Text → W → W
  pub start : Text → W → W

-- `strings.Split` at a line's end
unfoldable pub split_lines : Text → Text → List Text
split_lines cur [] = cur ∷ []
split_lines cur (c ∷ s) =
    let rest = split_lines [] s in
    let longer = split_lines (cur ++ c ∷ []) s in if c == 10 then cur ∷ rest else longer

unfoldable pub ps_command : Text → Text
unfolding replace_all
ps_command name =
    replace_all (codes "{name}") name
      (codes "ps -ef|grep -v grep|grep '{name}'|awk '{print $2}'|tr -s '\\n'")

module _ {W : Type 0} (sh : Shell W) where
  -- `FindPidSliceByProcessName`
  unfoldable pub find_pid_slice_by_process_name : Text → W → List Text
  unfolding ps_command split_lines trim is_space
  find_pid_slice_by_process_name name w =
      split_lines [] (trim is_space (sh.output (ps_command name) w))

  -- `ProcessIsRunning`
  unfoldable pub process_is_running : Text → W → Bool
  unfolding find_pid_slice_by_process_name
  process_is_running name w = elim (find_pid_slice_by_process_name name w) [
    | [] ↦ false
    | p ∷ ps ↦ elim p [ [] ↦ false | c ∷ s ↦ true ]
  ]

  -- the loop of `KillProcess`
  unfoldable pub kill_pids : List Text → W → W
  kill_pids [] w = w
  kill_pids (p ∷ ps) w = kill_pids ps (sh.run (codes "kill " ++ p) w)

  -- `KillProcess`
  unfoldable pub kill_process : Text → Action W (Unit {0})
  unfolding process_is_running kill_pids find_pid_slice_by_process_name
  kill_process name w =
      if not (process_is_running name w)
      then (err (plain (codes "process[" ++ (name ++ codes "] is not running"))), w)
      else (ok tt, kill_pids (find_pid_slice_by_process_name name w) w)
