-- ===== src/G2cache/Backends.antt =====
-- g2cache/cachebig, cachego and cacheledis: caches over a client library. A client is a parameter, and
-- what is assumed of it is that its own reads give what it stored.
use gof.Base.{◌≡◌, refl, Option, none, some, arith, if◌then◌else◌, Text, text_eq}
use gof.Fault.{not_found, Result, ok, err, Action}
use gof.G2cache.Store.{Store, IsStore}

-- what a client does with a key: `set` and `delete` may fail, `get` may fail or find nothing
pub record Client (W V : Type 0) : Type 0 where
  pub get : Text → W → Result (Option V)
  pub set : Text → V → Action W (Unit {0})
  pub delete : Text → Action W (Unit {0})
  pub reset : Action W (Unit {0})

pub record IsClient {W V : Type 0} (c : Client W V) : Type 0 where
  pub set_ok : (k : Text) (v : V) (w : W) → (c.set k v w).0 ≡ ok tt
  pub get-set :
      (k j : Text) (v : V) (w : W)
      → c.get j (c.set k v w).1 ≡ (if text_eq k j then ok (some v) else c.get j w)
  pub delete_ok : (k : Text) (w : W) → (c.delete k w).0 ≡ ok tt
  pub get-delete :
      (k j : Text) (w : W) → c.get j (c.delete k w).1 ≡ (if text_eq k j then ok none else c.get j w)
  pub reset_ok : (w : W) → (c.reset w).0 ≡ ok tt
  pub get-reset : (j : Text) (w : W) → c.get j (c.reset w).1 ≡ ok none

-- the value that go-cache holds: a text, bytes, or another value with its JSON
pub data Item : Type 0 where
  string : Text → Item
  bytes : Text → Item
  value : Result Text → Item

-- the type switch of `GoCache.Get`
unfoldable pub item_bytes : Item → Result Text
item_bytes (string d) = ok d
item_bytes (bytes d) = ok d
item_bytes (value r) = r

module _ {W : Type 0} where
  unfoldable pub ledis_get : Client W Text → Text → W → Result Text
  ledis_get c key w = elim (c.get key w) [
    | err e ↦ err e
    | ok none ↦ err not_found
    | ok (some d) ↦ ok d
  ]

  -- `LeDis`: nil bytes are a missing key
  unfoldable pub ledis : Client W Text → Store W
  unfolding ledis_get
  ledis c = record { get = ledis_get c; set = c.set; delete = c.delete; reset = c.reset }

  unfoldable pub big_get : Client W Text → Text → W → Result Text
  big_get c key w = elim (c.get key w) [
    | err e ↦ err not_found
    | ok none ↦ err not_found
    | ok (some d) ↦ ok d
  ]

  -- `BigCache`: every failure of a read is a missing key
  unfoldable pub big_cache : Client W Text → Store W
  unfolding big_get
  big_cache c = record { get = big_get c; set = c.set; delete = c.delete; reset = c.reset }

  unfoldable pub go_get : Client W Item → Text → W → Result Text
  unfolding item_bytes
  go_get c key w = elim (c.get key w) [
    | err e ↦ err e
    | ok none ↦ err not_found
    | ok (some v) ↦ item_bytes v
  ]

  -- `GoCache`: the client's calls have no error to give back
  unfoldable pub go_cache : Client W Item → Store W
  unfolding go_get
  go_cache c = record {
    get = go_get c;
    set = λ key d w. (ok tt, (c.set key (bytes d) w).1);
    delete = λ key w. (ok tt, (c.delete key w).1);
    reset = λ w. (ok tt, (c.reset w).1);
  }

  -- A cache over ledis keeps the promises of the interface if its client keeps its own.
  pub ledis-IsStore : (c : Client W Text) → IsClient c → IsStore (ledis c)
  unfolding ledis
  ledis-IsStore c h = record {
    set_ok = h.set_ok;
    get-set = λ k j v w. ground (arith, h.get-set k j v w);
    delete_ok = h.delete_ok;
    get-delete = λ k j w. ground (arith, h.get-delete k j w);
    reset_ok = h.reset_ok;
    get-reset = λ j w. ground (arith, h.get-reset j w);
  }

  -- The same for bigcache.
  pub big_cache-IsStore : (c : Client W Text) → IsClient c → IsStore (big_cache c)
  unfolding big_cache
  big_cache-IsStore c h = record {
    set_ok = h.set_ok;
    get-set = λ k j v w. ground (arith, h.get-set k j v w);
    delete_ok = h.delete_ok;
    get-delete = λ k j w. ground (arith, h.get-delete k j w);
    reset_ok = h.reset_ok;
    get-reset = λ j w. ground (arith, h.get-reset j w);
  }

  -- A cache over go-cache keeps the promises of the interface if its client keeps its own.
  pub go_cache-IsStore : (c : Client W Item) → IsClient c → IsStore (go_cache c)
  unfolding go_cache
  go_cache-IsStore c h = record {
    set_ok = λ k v w. refl;
    get-set = λ k j v w. ground (arith, h.get-set k j (bytes v) w);
    delete_ok = λ k w. refl;
    get-delete = λ k j w. ground (arith, h.get-delete k j w);
    reset_ok = λ w. refl;
    get-reset = λ j w. ground (arith, h.get-reset j w);
  }
