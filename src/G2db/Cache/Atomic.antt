-- ===== src/G2db/Cache/Atomic.antt =====
-- g2db/cache.go `Atomic`, `GetOrStore` and `Delete` as the steps of calls that run at once, and the
-- deletions of `_fnDel`, which take no lock first. The lock of a key has one holder; a call that asks for
-- a lock that is held waits. Loads are named by `F`.
pub mod Once
pub mod Progress
pub mod Lost
use gof.Base.{Option, none, some, List, [], ◌∷◌, if◌then◌else◌, Text}
use gof.Base.Dict.{Dict, get, put, remove}
use gof.Fault.{Result, ok, err, Action}
use gof.G2cache.Store.{Store}
use gof.G2db.Cache.{is_not_found}

-- how far the holder of a lock is in `getOrStore`; a load that panicked ends the call `broken`, and
-- `Atomic`, which does not defer, never unlocks
pub data Stage : Type 0 where
  entered : Stage
  missed : Stage
  fetched : Text → Stage
  broken : Stage

-- the world, the locks that are held, the keys that were loaded with success, those that were deleted,
-- and what the calls gave, newest first
pub record Calls (W : Type 0) : Type 0 where
  pub world : W
  pub held : Dict Stage
  pub loaded_keys : List Text
  pub deleted_keys : List Text
  pub answers : List (Text × Result Text)

-- A call gets its lock; its holder looks into the cache, loads, with a
-- result or a panic, or stores; and a key is deleted, under
-- its lock (`Delete`) or without.
pub data Event (F : Type 0) : Type 0 where
  locks : Text → Event F
  looks : Text → Event F
  loads : Text → F → Event F
  breaks : Text → F → Event F
  stores : Text → Event F
  clears : Text → Event F
  drops : Text → Event F

-- the end of a call: its lock is free, and it gives its result
unfoldable pub release : {W : Type 0} → Text → W → Result Text → Calls W → Calls W
unfolding remove
release key w r x = record x { world = w; held = remove key x.held; answers = (key, r) ∷ x.answers }

unfoldable pub hold : {W : Type 0} → Text → Stage → Calls W → Calls W
unfolding put
hold key p x = record x { held = put key p x.held }

module _ {W : Type 0} (s : Store W) where
  -- `getOrStore` up to the load
  unfoldable pub look : Text → Option Stage → Calls W → Option (Calls W)
  unfolding release hold is_not_found
  look key (some entered) x = elim (s.get key x.world) [
    | ok d ↦ some (release key x.world (ok d) x)
    | err e ↦
        if is_not_found e then some (hold key missed x) else some (release key x.world (err e) x)
  ]
  look key _ x = none

  unfoldable pub keep_fetched : Text → Option Stage → Calls W → Option (Calls W)
  unfolding release
  keep_fetched key (some (fetched d)) x =
      let (r, w) = s.set key d x.world in
      elim r [ ok _ ↦ some (release key w (ok d) x) | err e ↦ some (release key w (err e) x) ]
  keep_fetched key _ x = none

  unfoldable pub drop_key : Text → Calls W → Calls W
  drop_key key x = record x {
    world = (s.delete key x.world).1;
    deleted_keys = key ∷ x.deleted_keys;
  }

-- the load: an error ends the call
unfoldable pub fetch :
    {W F : Type 0} → (F → Action W Text) → Text → F → Option Stage → Calls W → Option (Calls W)
unfolding release hold
fetch load key f (some missed) x =
    let (r, w) = load f x.world in
    elim r [
      | err e ↦ some (release key w (err e) x)
      | ok d ↦
          some (record (hold key (fetched d) x) { world = w; loaded_keys = key ∷ x.loaded_keys })
    ]
fetch load key f _ x = none

-- a load that panics, behind what it did to the world
unfoldable pub break_load :
    {W F : Type 0} → (F → Action W Text) → Text → F → Option Stage → Calls W → Option (Calls W)
unfolding hold
break_load load key f (some missed) x =
    some (record (hold key broken x) { world = (load f x.world).1 })
break_load load key f _ x = none

module _ {W F : Type 0} (s : Store W) (load : F → Action W Text) where
  -- a step, if it can happen
  unfoldable pub atomic_step : Calls W → Event F → Option (Calls W)
  unfolding hold look fetch break_load keep_fetched drop_key
  atomic_step x (locks key) = elim (get key x.held) [
    | none ↦ some (hold key entered x)
    | some p ↦ none
  ]
  atomic_step x (looks key) = look s key (get key x.held) x
  atomic_step x (loads key f) = fetch load key f (get key x.held) x
  atomic_step x (breaks key f) = break_load load key f (get key x.held) x
  atomic_step x (stores key) = keep_fetched s key (get key x.held) x
  atomic_step x (clears key) = elim (get key x.held) [
    | none ↦ some (drop_key s key x)
    | some p ↦ none
  ]
  atomic_step x (drops key) = some (drop_key s key x)

  unfoldable pub atomic_run : Calls W → List (Event F) → Option (Calls W)
  unfolding atomic_step
  atomic_run x [] = some x
  atomic_run x (e ∷ es) = elim (atomic_step x e) [ none ↦ none | some y ↦ atomic_run y es ]

abbrev pub idle : {W : Type 0} → W → Calls W
idle w = record { world = w; held = []; loaded_keys = []; deleted_keys = []; answers = [] }
