-- ===== src/G2cache/Instance.antt =====
-- g2cache/cache.go: the cache that the application holds, and the construction of those that open a client at
-- once. A panic is none.
use gof.Base.{ℕ, ◌*◌, ◌^◌, ◌≡◌, refl, Bool, false, Option, none, some, [], Text, codes, text_eq}
use gof.Base.Dict.{Dict, get as dict_get, put}
use gof.Fault.{Result, ok, err}
use gof.G2cache.Store.{Store, register, get_store}

-- The configurations that the clients are opened with: how long bigcache keeps an item, in nanoseconds, and
-- whether it talks; ristretto's counters, cost and buffers.
pub record BigConfig : Type 0 where
  pub eviction : ℕ
  pub verbose : Bool

pub record RistrettoConfig : Type 0 where
  pub num_counters : ℕ
  pub max_cost : ℕ
  pub buffer_items : ℕ

-- a constructor that panics on an error
abbrev pub must {ℓ} : {C : Type ℓ} → Result C → Option C
must (ok c) = some c
must (err e) = none

module _ {C : Type 0} where
  -- `BigCache.Constructor`
  unfoldable pub construct_big : (BigConfig → Result C) → Option C
  construct_big new = must (new (record { eviction = 10 * 60 * 1000000000; verbose = false }))

  -- `Ristretto.Constructor`
  unfoldable pub construct_ristretto : (RistrettoConfig → Result C) → Option C
  construct_ristretto new =
      must (new (record { num_counters = 10000000; max_cost = 2 ^ 30; buffer_items = 64 }))

  -- `GoCache.Constructor`: the expiry and the interval of its cleanup
  unfoldable pub construct_go : (ℕ → ℕ → C) → C
  construct_go new = new (10 * 60 * 1000000000) (10 * 60 * 1000000000)

-- `Instance`; `inc` may be nil
pub record Instance (W : Type 0) : Type 0 where
  pub inc : Option (Store W)

module _ {W : Type 0} where
  -- `Constructor`: the error of a registry without the default is dropped
  unfoldable pub construct_instance : Dict (Store W) → Instance W
  unfolding get_store
  construct_instance ins = record { inc = elim (get_store [] ins) [ ok s ↦ some s | err e ↦ none ] }

  -- `SetInstance`
  unfoldable pub set_instance : Store W → Instance W → Instance W
  set_instance s i = record i { inc = some s }

  -- `Get`, `Set`, `Delete` and `Reset` pass on to the cache; a nil one panics
  unfoldable pub get : Instance W → Text → W → Option (Result Text)
  get i key w = elim i.inc [ none ↦ none | some s ↦ some (s.get key w) ]

  unfoldable pub set : Instance W → Text → Text → W → Option (Result (Unit {0}) × W)
  set i key d w = elim i.inc [ none ↦ none | some s ↦ some (s.set key d w) ]

  unfoldable pub delete : Instance W → Text → W → Option (Result (Unit {0}) × W)
  delete i key w = elim i.inc [ none ↦ none | some s ↦ some (s.delete key w) ]

  unfoldable pub reset : Instance W → W → Option (Result (Unit {0}) × W)
  reset i w = elim i.inc [ none ↦ none | some s ↦ some (s.reset w) ]

  -- the registrations that the packages make when they are loaded
  unfoldable pub loaded : Store W → Store W → Store W → Store W → Dict (Store W)
  unfolding register
  loaded big gc le ri =
      register (codes "ristretto") ri (
        register (codes "ledis") le (register (codes "gocache") gc (register (codes "big") big [])))

  -- The application's cache is ledis, whatever the other packages register.
  construct_instance-loaded :
      (big gc le ri : Store W) → construct_instance (loaded big gc le ri) ≡ record { inc = some le }
  unfolding construct_instance loaded text_eq dict_get put
  construct_instance-loaded big gc le ri = refl
