-- ===== src/G2util/ConfigTests.antt =====
-- Runs of the configuration on a world that knows whether there is a temporary file and whether the
-- disk takes writes.
use gof.Base.{
  ℕ, ◌≡◌, refl, Bool, true, false, none, List, [], ◌∷◌, ◌++◌, arith, if◌then◌else◌, codes,
}
use gof.Fault.{plain, ok, err}
use gof.G2util.Config.{Viper, Files, load_from_temp, config_name}
use gof.G2util.Config.Temp.{IsKeeping, load_from_temp_kept}

abbrev World : Type 0
World = Bool × Bool

-- a configuration is its settings, newest first
abbrev vipers : Viper World (List ℕ) (List ℕ)
vipers = record {
  new = [];
  set_config_file = λ t v. 7 ∷ v;
  set_config_type = λ t v. v;
  set_config_name = λ t v. v;
  add_config_path = λ t v. v;
  read_in_config = λ v w. (ok (1 ∷ v), w);
  all_settings = λ v. v;
  merge_config_map = λ s v. ok (s ++ v);
  write_config = λ v w. if w.1 then (ok tt, w) else (err (plain (codes "full")), w);
  write_config_as = λ v t w. (ok tt, (true, w.1));
  watch_config = λ v w. w;
}

abbrev files : Files World
files = record {
  self_dir = codes "/app";
  temp_file = codes "/app/data/conf_temp.yml";
  sub_dirs = λ d w. none;
  exists = λ t w. w.0;
  remove = λ t w. (false, w.1);
}

files-IsKeeping : IsKeeping vipers files
files-IsKeeping = record { exists-read = λ v w h. h; exists-write = λ v w h. ground (arith, h) }

failed : (load_from_temp vipers files (3 ∷ []) (true, false)).0 ≡ err (plain (codes "full"))
unfolding load_from_temp
failed = refl

load_from_temp_kept_example :
    files.exists files.temp_file (load_from_temp vipers files (3 ∷ []) (true, false)).1 ≡ true
load_from_temp_kept_example =
    load_from_temp_kept vipers files files-IsKeeping (3 ∷ []) (true, false) (plain (codes "full"))
      failed

merged : (load_from_temp vipers files (3 ∷ []) (true, true)).0 ≡ ok (1 ∷ 7 ∷ 3 ∷ [])
unfolding load_from_temp
merged = refl

named : config_name (codes "app") (codes "/etc" ∷ [] ∷ []) ≡ codes "app"
unfolding config_name
named = refl
