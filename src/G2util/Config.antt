-- ===== src/G2util/Config.antt =====
-- g2util/config.go: the search for the configuration, and settings that a temporary file hands to the
-- next start. Viper and the files are parameters.
pub mod Temp
pub mod Access
use gof.Base.{
  ℕ, Bool, not, Option, none, some, List, [], ◌∷◌, if◌then◌else◌, get_elem?, Text, codes,
}
use gof.Base.Path.{join_path}
use gof.Fault.{Result, ok, err, Action, ◌>>=◌}

-- what viper does, with values `V`, and settings `S`
pub record Viper (W V S : Type 0) : Type 0 where
  pub new : V
  pub set_config_file : Text → V → V
  pub set_config_type : Text → V → V
  pub set_config_name : Text → V → V
  pub add_config_path : Text → V → V
  pub read_in_config : V → Action W V
  pub all_settings : V → S
  pub merge_config_map : S → V → Result V
  pub write_config : V → Action W (Unit {0})
  pub write_config_as : V → Text → Action W (Unit {0})
  pub watch_config : V → W → W

-- the files: the program's directory, the directories in a directory, whether a file is there, and
-- the removal of one
pub record Files (W : Type 0) : Type 0 where
  pub self_dir : Text
  pub temp_file : Text
  pub sub_dirs : Text → W → Option (List Text)
  pub exists : Text → W → Bool
  pub remove : Text → W → W

-- `Config`
pub record Config (V : Type 0) : Type 0 where
  pub root_path : Text
  pub filename : Text
  pub viper : Option V

-- an argument of `load` as text, none if it is empty or not there
unfoldable pub argument : List Text → ℕ → Option Text
argument args n = elim (get_elem? args n) [
  | none ↦ none
  | some t ↦ elim t [ [] ↦ none | c ∷ s ↦ some (c ∷ s) ]
]

abbrev pub or_else : Option Text → Text → Text
or_else none d = d
or_else (some t) d = t

-- the name of the configuration that `load` looks for
unfoldable pub config_name : Text → List Text → Text
unfolding argument
config_name filename args =
    or_else (argument args 1) (elim filename [ [] ↦ codes "conf" | c ∷ s ↦ c ∷ s ])

module _ {W V S : Type 0} (x : Viper W V S) (f : Files W) where
  -- `Constructor`
  unfoldable pub construct : Config V → Config V
  construct c = record c { viper = some x.new; root_path = f.self_dir }

  -- the loop of `_fn1entry`
  unfoldable pub add_sub_dirs : Text → List Text → V → V
  unfolding join_path
  add_sub_dirs dir [] v = v
  add_sub_dirs dir (n ∷ ns) v = add_sub_dirs dir ns (x.add_config_path (join_path dir n) v)

  -- `_fn1entry`; a directory that cannot be read only has no directories
  unfoldable pub add_dir : Text → W → V → V
  unfolding add_sub_dirs
  add_dir dir w v =
      let v' = x.add_config_path dir v in
      elim (f.sub_dirs dir w) [ none ↦ v' | some ns ↦ add_sub_dirs dir ns v' ]

  -- `LoadFromTemp` behind the merge: the file goes once the settings are written
  unfoldable pub store_merged : V → Action W V
  store_merged v w =
      let (r, w') = x.write_config v w in
      elim r [ err e ↦ (err e, w') | ok _ ↦ (ok v, f.remove f.temp_file w') ]

  -- `LoadFromTemp` of a configuration with a viper: what it becomes; without a file nothing happens
  unfoldable pub load_from_temp : V → Action W V
  unfolding store_merged
  load_from_temp v w =
      if not (f.exists f.temp_file w)
      then (ok v, w)
      else (let (r, w') = x.read_in_config (x.set_config_file f.temp_file x.new) w in
          elim r [
            | err e ↦ (err e, w')
            | ok t ↦ elim (x.merge_config_map (x.all_settings t) v) [
              | err e ↦ (err e, w')
              | ok merged ↦ store_merged merged w'
            ]
          ])

  -- what `load` tells viper
  unfoldable pub prepare : Config V → List Text → V → W → V
  unfolding argument config_name add_dir
  prepare c args v w =
      let v1 : V = elim (argument args 2) [ none ↦ v | some t ↦ x.set_config_file t v ] in
      let v2 =
        x.set_config_name (config_name c.filename args) (x.set_config_type (codes "yml") v1) in
      add_dir (codes ".") w (add_dir (or_else (argument args 0) c.root_path) w v2)

  -- `load` with the viper of the configuration; after an error only the error is given back
  unfoldable pub load_with : Config V → List Text → V → Action W (Config V)
  unfolding prepare load_from_temp
  load_with c args v w =
      (do
        read ← x.read_in_config (prepare c args v w)
        merged ← load_from_temp read
        (λ w'. (
          ok (record c { root_path = or_else (argument args 0) c.root_path; viper = some merged }),
          x.watch_config merged w',
        )))
        w

  -- `load`
  unfoldable pub load : Config V → List Text → Action W (Config V)
  unfolding construct load_with
  load c args = elim c.viper [
    | some v ↦ load_with c args v
    | none ↦ load_with (construct c) args x.new
  ]

  -- `WriteToTemp`
  unfoldable pub write_to_temp : (V → V) → V → Action W (Unit {0})
  write_to_temp change v = x.write_config_as (change v) f.temp_file
