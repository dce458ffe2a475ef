-- ===== src/G2util/Exec/Inner.antt =====
-- g2util/exec.go `execInner`: a command of the shell with its output. `exec.Cmd` is a parameter, with
-- outputs `O`.
use gof.Base.{Option, none, some, List, [], ◌∷◌, Text, codes}
use gof.Fault.{Action}

-- `exec.Cmd` as it is used: what it runs, and where its output goes
pub record Cmd (O : Type 0) : Type 0 where
  pub path : Text
  pub args : List Text
  pub stdout : Option O
  pub stderr : Option O

-- what a command does
pub record Os (W O : Type 0) : Type 0 where
  pub start : Cmd O → Action W (Unit {0})
  pub run : Cmd O → Action W (Unit {0})
  pub output : Cmd O → Action W Text
  pub combined_output : Cmd O → Action W Text

-- `execInner`
pub record ExecInner (O : Type 0) : Type 0 where
  pub cmd : Cmd O
  pub out : O

module _ {O : Type 0} where
  -- `NewExecInner` and `StdExec`
  unfoldable pub new_exec_inner : Text → O → ExecInner O
  new_exec_inner s out = record {
    cmd = record {
      path = codes "/bin/sh";
      args = codes "-c" ∷ s ∷ [];
      stdout = none;
      stderr = none;
    };
    out = out;
  }

  unfoldable pub std_exec : O → Text → ExecInner O
  unfolding new_exec_inner
  std_exec os_stdout s = new_exec_inner s os_stdout

  -- `setOut`: both outputs go to the writer
  unfoldable pub set_out : ExecInner O → Cmd O
  set_out e = record e.cmd { stdout = some e.out; stderr = some e.out }

module _ {W O : Type 0} (os : Os W O) where
  -- `Run` and `Start` set the outputs, `Output` and `CombinedOutput` collect them
  unfoldable pub run_cmd : ExecInner O → Action W (Unit {0})
  unfolding set_out
  run_cmd e = os.run (set_out e)

  unfoldable pub start_cmd : ExecInner O → Action W (Unit {0})
  unfolding set_out
  start_cmd e = os.start (set_out e)

  unfoldable pub output_of : ExecInner O → Action W Text
  output_of e = os.output e.cmd

  unfoldable pub combined_output_of : ExecInner O → Action W Text
  combined_output_of e = os.combined_output e.cmd
