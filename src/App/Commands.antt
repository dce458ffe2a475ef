-- ===== src/App/Commands.antt =====
-- gof.go `RunDefault`, `RunWithCmd` and `RunServices` with g2cmd/g2cmd.go `Execute` and g2cmd/interface.go: the
-- commands and their workers. Cobra is a parameter.
use gof.Base.{Option, none, some, List, [], ◌∷◌, get_elem?, Text, codes}
use gof.Base.Dict.{Dict, put}
use gof.App.Steps.{Step, on_world, ◌>>◌}
use gof.App.{Parts, default_start, run_servers}

-- a command by the name that it is called with, and what it does
pub record Command (W : Type 0) : Type 0 where
  pub use_name : Text
  pub act : Step W

-- a worker that was set, or nothing
abbrev pub worker_step : {W : Type 0} → Option (Step W) → Step W
worker_step none s = some s
worker_step (some f) s = f s

-- the second components of a map
unfoldable pub command_list {ℓ} : {V : Type ℓ} → Dict V → List V
command_list [] = []
command_list ((k, v) ∷ m) = v ∷ command_list m

-- What the commands `stop` and `restart` do to the world, the program's own name, and `Execute` of
-- the root command with the commands added to it.
pub record Program (W : Type 0) : Type 0 where
  pub stop_act : W → Option W
  pub restart_act : W → Option W
  pub binary_name : Text
  pub cobra : Command W → List (Command W) → Step W

module _ {W : Type 0} (p : Program W) where
  abbrev pub root_command : Command W
  root_command = record { use_name = p.binary_name; act = λ s. some s }

  -- `RegisterCmd` of the five commands; the root command is among those that are added to it
  unfoldable pub commands : Option (Step W) → Option (Step W) → Dict (Command W)
  unfolding put
  commands start migrate =
      put (codes "migrateCmd") (record { use_name = codes "migrate"; act = worker_step migrate })
        (put (codes "restartCmd")
          (record { use_name = codes "restart"; act = on_world p.restart_act })
          (put (codes "stopCmd") (record { use_name = codes "stop"; act = on_world p.stop_act })
            (put (codes "startCmd") (record { use_name = codes "start"; act = worker_step start })
              (put (codes "rootCmd") root_command []))))

  -- `Execute`
  unfoldable pub execute : Option (Step W) → Option (Step W) → Step W
  unfolding commands command_list
  execute start migrate = p.cobra root_command (command_list (commands start migrate))

  -- `RunWithCmd`: the first function starts, the second migrates, others are ignored
  unfoldable pub run_with_cmd : List (Step W) → Step W
  unfolding execute
  run_with_cmd fns = execute (get_elem? fns 0) (get_elem? fns 1)

module _ {W : Type 0} (x : Parts W) (p : Program W) where
  -- `RunServices` until it waits for signals
  unfoldable pub run_services : Step W
  unfolding run_servers
  run_services = do on_world (λ w. some (x.set_j2_service w)); run_servers x

  -- `RunDefault`
  unfoldable pub run_default : Step W
  unfolding default_start run_with_cmd run_services
  run_default = do
    default_start x []
    on_world x.inject_service
    on_world x.table_register
    run_with_cmd p (run_services ∷ on_world x.migrate ∷ [])
