-- ===== src/G2cache/Tests.antt =====
-- Runs of the caches on concrete inputs.
use gof.Base.{◌≡◌, refl, Option, some, List, [], ◌∷◌, ◌++◌, arith, Text, codes}
use gof.Base.Dict.{Dict, get, put, remove, get-put, get-remove}
use gof.Fault.{ok}
use gof.G2cache.Backends.{Client, IsClient}
use gof.G2cache.Ledis.{Library, LeDis, new_ledis, set_cfg, db}
use gof.G2cache.Ledis.Opened.{db_first_use}

-- a client that keeps everything
abbrev pub table : {V : Type 0} → Client (Dict V) V
table = record {
  get = λ k w. ok (get k w);
  set = λ k v w. (ok tt, put k v w);
  delete = λ k w. (ok tt, remove k w);
  reset = λ w. (ok tt, []);
}

pub table-IsClient : {V : Type 0} → IsClient (table {V = V})
unfolding get
table-IsClient = record {
  set_ok = λ k v w. refl;
  get-set = λ k j v w. ground (arith, get-put k j v w);
  delete_ok = λ k w. refl;
  get-delete = λ k j w. ground (arith, get-remove k j w);
  reset_ok = λ w. refl;
  get-reset = λ j w. refl;
}

-- a library that opens what it is given, and keeps the configurations that it opened
abbrev ledis_library : Library (List Text) Text Text Text
ledis_library = record {
  default_config = codes "default";
  with_data_dir = λ d c. c ++ (b' ' ∷ d);
  open_with = λ c w. (ok c, w ++ c ∷ []);
  select = λ i w. (ok i, w);
}

db_first_use_example :
    (db ledis_library (codes "/srv") (set_cfg (codes "mine") new_ledis) []
      ≡ db ledis_library (codes "/srv") new_ledis [])
    × ((d : Option Text) (m : LeDis Text Text Text) (v u : List Text)
        → db ledis_library (codes "/srv") (set_cfg (codes "mine") new_ledis) [] ≡ some ((d, m), v)
        → db ledis_library (codes "/srv") m u ≡ some ((d, m), u))
unfolding set_cfg
db_first_use_example =
    db_first_use ledis_library (codes "/srv") (set_cfg (codes "mine") new_ledis) [] refl
