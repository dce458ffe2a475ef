-- ===== src/G2db/Cache.antt =====
-- g2db/cache.go: `cacheMem`. A call holds the lock of its key from start to end (`Atomic`), so it is
-- one step on the world; Atomic takes the steps of calls that run at once apart.
pub mod ReadThrough
pub mod Invalidate
pub mod Transparent
pub mod Atomic
use gof.Base.{Bool, true, false, Option, none, some, List, [], ◌∷◌, if◌then◌else◌, Text, codes}
use gof.Fault.{Err, not_found, ok, err, Action, ◌>>=◌}
use gof.G2cache.Store.{Store}

abbrev pub cache_null : Text
cache_null = codes "null"

-- `err == store.ErrNotFound`
unfoldable pub is_not_found : Err → Bool
is_not_found not_found = true
is_not_found _ = false

module _ {W : Type 0} (s : Store W) where
  -- what follows the load: the bytes are stored and given back
  unfoldable pub store_loaded : Text → Text → Action W Text
  store_loaded key d w =
      let (r, w') = s.set key d w in elim r [ ok _ ↦ (ok d, w') | err e ↦ (err e, w') ]

  -- `getOrStore`; `fn` is the load
  unfoldable pub get_or_store : Text → Action W Text → Action W Text
  unfolding store_loaded is_not_found
  get_or_store key fn w = elim (s.get key w) [
    | ok d ↦ (ok d, w)
    | err e ↦
        (let load = (fn >>= store_loaded key) w in if is_not_found e then load else (err e, w))
  ]

  -- `Delete`; the error of the store is dropped
  unfoldable pub delete : Text → W → W
  delete key w = (s.delete key w).1

  -- the loop of `_fnDel`: the store's own delete, then `Delete`
  unfoldable pub delete_keys : List Text → W → W
  unfolding delete
  delete_keys [] w = w
  delete_keys (key ∷ keys) w = delete_keys keys (delete key (s.delete key w).1)

  -- `RedisSubDelCache` on one payload, none where it does not decode. The same deletion comes once
  -- more two seconds later.
  unfoldable pub on_delete : Option (List Text) → W → W
  unfolding delete_keys
  on_delete none w = w
  on_delete (some keys) w = delete_keys keys w

  -- `RedisSubDelMemAll`
  unfoldable pub on_delete_all : W → W
  on_delete_all w = (s.reset w).1
