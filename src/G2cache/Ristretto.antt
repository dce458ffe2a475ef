-- ===== src/G2cache/Ristretto.antt =====
-- g2cache/cacheristretto: a cache that may drop what it is given, at once or later, and may show a
-- new item only after a while. The client is a parameter.
use gof.Base.{
  ℕ, ◌≡◌, refl, inl, inr, Option, none, some, arith, if◌then◌else◌, Option-cases, length, Text,
  text_eq,
}
use gof.Fault.{Err, not_found, Result, ok, err}
use gof.G2cache.Store.{Store}
use gof.G2cache.Backends.{Item, bytes, item_bytes}

-- what `ristretto.Cache` does with a key, the cost of an item included
pub record Client (W : Type 0) : Type 0 where
  pub get : Text → W → Option Item
  pub set_with_ttl : Text → Item → ℕ → W → W
  pub del : Text → W → W
  pub clear : W → W

-- Of a client it is assumed that there is an item last given for each key, bytes being what the cache
-- gives it, and that a read that finds something finds this.
pub record IsClient {W : Type 0} (c : Client W) (last : Text → W → Option Item) : Type 0 where
  pub get-last : (k : Text) (i : Item) (w : W) → c.get k w ≡ some i → last k w ≡ some i
  pub last-set :
      (k j d : Text) (cost : ℕ) (w : W)
      → last j (c.set_with_ttl k (bytes d) cost w)
        ≡ (if text_eq k j then some (bytes d) else last j w)
  pub last-del :
      (k j : Text) (w : W) → last j (c.del k w) ≡ (if text_eq k j then none else last j w)
  pub last-clear : (j : Text) (w : W) → last j (c.clear w) ≡ none

-- What a cache promises that may lose what it holds: of each key it knows at most the bytes that were
-- set last, and a failed read only means that it does not know.
pub record IsLossyStore {W : Type 0} (s : Store W) (last : Text → W → Option Text) : Type 0 where
  pub get_ok : (k d : Text) (w : W) → s.get k w ≡ ok d → last k w ≡ some d
  pub get_err : (k : Text) (e : Err) (w : W) → s.get k w ≡ err e → e ≡ not_found
  pub set_ok : (k d : Text) (w : W) → (s.set k d w).0 ≡ ok tt
  pub last-set :
      (k j d : Text) (w : W) → last j (s.set k d w).1 ≡ (if text_eq k j then some d else last j w)
  pub last-delete :
      (k j : Text) (w : W) → last j (s.delete k w).1 ≡ (if text_eq k j then none else last j w)
  pub last-reset : (j : Text) (w : W) → last j (s.reset w).1 ≡ none

module _ {W : Type 0} (c : Client W) where
  unfoldable pub ristretto_get : Text → W → Result Text
  unfolding item_bytes
  ristretto_get key w = elim (c.get key w) [ none ↦ err not_found | some v ↦ item_bytes v ]

  -- `Ristretto`; the cost of an item is its length
  unfoldable pub ristretto : Store W
  unfolding ristretto_get
  ristretto = record {
    get = ristretto_get;
    set = λ key d w. (ok tt, c.set_with_ttl key (bytes d) (length d) w);
    delete = λ key w. (ok tt, c.del key w);
    reset = λ w. (ok tt, c.clear w);
  }

  -- the bytes of the item that was last given
  unfoldable pub last_bytes : (Text → W → Option Item) → Text → W → Option Text
  unfolding item_bytes
  last_bytes last k w = elim (last k w) [
    | none ↦ none
    | some i ↦ elim (item_bytes i) [ err e ↦ none | ok d ↦ some d ]
  ]

  module _ (last : Text → W → Option Item) (h : IsClient c last)
      (reads : (k : Text) (i : Item) (w : W)
        → last k w ≡ some i
        → (d : Text) × (item_bytes i ≡ ok d)) where
    get_ok : (k d : Text) (w : W) → ristretto_get k w ≡ ok d → last_bytes last k w ≡ some d
    unfolding ristretto_get last_bytes
    get_ok k d w q = elim (Option-cases (c.get k w)) [
      | inl e ↦ ground (arith, q, e)
      | inr (i, e) ↦ ground (arith, q, e, h.get-last k i w e)
    ]

    get_err : (k : Text) (x : Err) (w : W) → ristretto_get k w ≡ err x → x ≡ not_found
    unfolding ristretto_get
    get_err k x w q = elim (Option-cases (c.get k w)) [
      | inl e ↦ ground (arith, q, e)
      | inr (i, e) ↦ (let (d, r) = reads k i w (h.get-last k i w e) in ground (arith, q, e, r))
    ]

    -- The cache over ristretto keeps the promises of a lossy cache if its client keeps its own and
    -- everything in it reads as bytes.
    pub ristretto-IsLossyStore : IsLossyStore ristretto (last_bytes last)
    unfolding ristretto last_bytes item_bytes
    ristretto-IsLossyStore = record {
      get_ok = get_ok;
      get_err = get_err;
      set_ok = λ k d w. refl;
      last-set = λ k j d w. ground (arith, h.last-set k j d (length d) w);
      last-delete = λ k j w. ground (arith, h.last-del k j w);
      last-reset = λ j w. ground (arith, h.last-clear j w);
    }
