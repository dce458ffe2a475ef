-- ===== src/G2cache/Ledis.antt =====
-- g2cache/cacheledis/ledis.go: how the database behind the cache is opened. The library is a parameter, with
-- configurations `C`, instances `I` and databases `D`; a nil pointer is none, and `log.Fatal` too.
pub mod Opened
use gof.Base.{Bool, true, false, Option, none, some, [], if◌then◌else◌, Text, codes}
use gof.Base.Path.{join_path}
use gof.Fault.{wrap, Done, ok, err, Action}

pub record Library (W C I D : Type 0) : Type 0 where
  pub default_config : C
  pub with_data_dir : Text → C → C
  pub open_with : C → Action W I
  pub select : I → Action W D

-- `LeDis`; `opened` is whether `once` has run
pub record LeDis (C I D : Type 0) : Type 0 where
  pub cfg : Option C
  pub inc : Option I
  pub base : Option D
  pub opened : Bool

module _ {C I D : Type 0} where
  -- `New`
  abbrev pub new_ledis : LeDis C I D
  new_ledis = record { cfg = none; inc = none; base = none; opened = false }

  -- `SetCfg`, `SetInc` and `SetDB`
  unfoldable pub set_cfg : C → LeDis C I D → LeDis C I D
  set_cfg c l = record l { cfg = some c }

  unfoldable pub set_inc : I → LeDis C I D → LeDis C I D
  set_inc i l = record l { inc = some i }

  unfoldable pub set_db : D → LeDis C I D → LeDis C I D
  set_db d l = record l { base = some d }

module _ {W C I D : Type 0} (x : Library W C I D) (store_root : Text) where
  -- the configuration of `SetInstance`
  unfoldable pub config_of : Option C → C
  unfolding join_path
  config_of (some c) = c
  config_of none = x.with_data_dir (join_path store_root (codes "._ledisdata")) x.default_config

  -- `SetInstance`: the error, and what the cache becomes; a failure leaves nil behind
  unfoldable pub set_instance : Option C → LeDis C I D → W → (Done × LeDis C I D) × W
  unfolding config_of
  set_instance given l w =
      let c = config_of given in
      let (r, w1) = x.open_with c w in
      elim r [
        | err e ↦ ((err (wrap (codes "open: ") e []), record l { cfg = some c; inc = none }), w1)
        | ok i ↦
            (let (s, w2) = x.select i w1 in
              elim s [
                | err e ↦ (
                  (
                    err (wrap (codes "select: ") e []),
                    record l { cfg = some c; inc = some i; base = none },
                  ),
                  w2,
                )
                | ok d ↦ ((ok tt, record l { cfg = some c; inc = some i; base = some d }), w2)
              ])
      ]

  -- `Instance`: it opens the default the first time
  unfoldable pub instance_of : LeDis C I D → W → Option (LeDis C I D × W)
  unfolding set_instance
  instance_of l w =
      if l.opened
      then some (l, w)
      else (let ((r, l'), w') = set_instance none l w in
          elim r [ err e ↦ none | ok _ ↦ some (record l' { opened = true }, w') ])

  -- `DB`
  unfoldable pub db : LeDis C I D → W → Option ((Option D × LeDis C I D) × W)
  unfolding instance_of
  db l w = elim (instance_of l w) [ none ↦ none | some (l', w') ↦ some ((l'.base, l'), w') ]
