-- ===== src/G2util/Config/Access.antt =====
-- g2util/config.go: the places of the configuration, and its accessors.
use mathlib.Core.Option
use gof.Base.{◌≡◌, refl, Option, none, some, List, if◌then◌else◌, Text, codes, text_eq}
use gof.Base.Path.{dir, join_path}
use gof.Base.Replace.{contains}
use gof.Fault.{ok, err, Action}
use gof.G2util.Config.{Config, Viper, Files, load}

-- `getRoot`, from the path of the executable
unfoldable pub get_root : Text → Text
unfolding contains dir
get_root ex = if contains ex (codes "go-build") then codes "." else dir ex

-- `filepath.Join` of the root with two more parts: it drops a root that is a dot
unfoldable pub joined : Text → Text → Text → Text
unfolding join_path text_eq
joined root a b = if text_eq root (codes ".") then join_path a b else join_path (join_path root a) b

-- `TempFile`, without the directory that it makes
unfoldable pub temp_file : Text → Text
unfolding get_root joined
temp_file ex = joined (get_root ex) (codes "data") (codes "conf_temp.yml")

module _ {V : Type 0} where
  -- `SetFilename` and `SetRootPath`
  unfoldable pub set_filename : Text → Config V → Config V
  set_filename name c = record c { filename = name }

  unfoldable pub set_root_path : Text → Config V → Config V
  set_root_path path c = record c { root_path = path }

  -- `AppName`; without a viper it panics
  unfoldable pub app_name : (Text → V → Text) → Config V → Option Text
  app_name get_string c = Option.map (get_string (codes "name")) c.viper

  -- `LockFunc`: the function runs under the lock, with the viper that may be nil
  unfoldable pub lock_func :
      {W : Type 0} → (Option V → Action W (Unit {0})) → Config V → Action W (Unit {0})
  lock_func fn c = fn c.viper

module _ {W V S : Type 0} (x : Viper W V S) (f : Files W) where
  -- `Load`: an error of `load` ends the process, none
  unfoldable pub must_load : Config V → List Text → W → Option (Config V × W)
  unfolding load
  must_load c args w =
      let (r, w') = load x f c args w in elim r [ err e ↦ none | ok c' ↦ some (c', w') ]

temp_file_built : temp_file (codes "/srv/app/app") ≡ codes "/srv/app/data/conf_temp.yml"
unfolding temp_file
temp_file_built = refl

temp_file_run : temp_file (codes "/tmp/go-build1/app") ≡ codes "data/conf_temp.yml"
unfolding temp_file
temp_file_run = refl
