-- ===== src/G2cmd/Flags.antt =====
-- g2cmd/: the flags of the commands, the workers that are set, and the version. Cobra is a parameter.
use gof.Base.{Bool, true, false, Option, none, some, List, [], ◌∷◌, if◌then◌else◌, Text, codes}
use gof.Base.Dict.{Dict, put}
use gof.Fault.{Result, ok, err}

-- the flags that the commands define: name, letter, default, and whether commands below inherit it
pub record Flag : Type 0 where
  pub name : Text
  pub letter : Text
  pub usage : Text
  pub persistent : Bool

abbrev flag : Text → Text → Text → Bool → Flag
flag n l u p = record { name = n; letter = l; usage = u; persistent = p }

-- `SetFlags` of the root command, of `start` and of `migrate`; `stop` and `restart` have none
unfoldable pub root_flags : List Flag
root_flags =
    flag (codes "sd") (codes "s") (codes "set daemon") true
    ∷ flag (codes "clean-cache") (codes "c") (codes "clean cache") true
    ∷ flag (codes "version") (codes "v") [] false
    ∷ []

unfoldable pub start_flags : List Flag
start_flags = flag (codes "daemon") (codes "d") [] false ∷ []

unfoldable pub migrate_flags : List Flag
migrate_flags = flag (codes "drop") (codes "d") (codes "drop database") false ∷ []

-- `FlagsGetBoolFunc`; an unknown flag ends the process, none
unfoldable pub flags_get_bool_func :
    {W : Type 0} → (Text → Result Bool) → Text → (W → W) → W → Option W
flags_get_bool_func get_bool name fn w = elim (get_bool name) [
  | err e ↦ none
  | ok found ↦ some (if found then fn w else w)
]

-- `BuildInfoInstanceAdd`
unfoldable pub build_info_add : {V : Type 0} → Dict V → Dict V → Dict V
unfolding put
build_info_add [] info = info
build_info_add ((k, v) ∷ m) info = build_info_add m (put k v info)

-- the template of `showVersion`
abbrev pub version_template : Text
version_template =
    codes
      "------------------------------版本信息------------------------------\nApplication: {{.appName}}\nVersion: {{.version}}\nBuildTime: {{.buildTime}}\n{{.goVersion}}\ngit: {{.gitBranch}} - {{.gitHash}}"

-- `G2cmd`: the commands by their types, and the workers
pub record Workers (P W : Type 0) : Type 0 where
  pub cmd_map : Dict P
  pub start_worker : Option (W → W)
  pub migrate_worker : Option (W → W)

module _ {P W : Type 0} where
  -- `Constructor` of the map
  unfoldable pub empty_cmd_map : Workers P W → Workers P W
  empty_cmd_map g = record g { cmd_map = [] }

  -- `RegisterCmd`, under the name of the command's type
  unfoldable pub register_cmd : Text → P → Workers P W → Workers P W
  unfolding put
  register_cmd name cmd g = record g { cmd_map = put name cmd g.cmd_map }

  -- `SetStartWorker` and `SetMigrateWorker`
  unfoldable pub set_start_worker : (W → W) → Workers P W → Workers P W
  set_start_worker f g = record g { start_worker = some f }

  unfoldable pub set_migrate_worker : (W → W) → Workers P W → Workers P W
  set_migrate_worker f g = record g { migrate_worker = some f }
