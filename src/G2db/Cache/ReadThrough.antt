-- ===== src/G2db/Cache/ReadThrough.antt =====
-- Reading through the cache.
use gof.Base.{◌≡◌, inl, inr, arith, Bool-cases, Text, text_eq_refl}
use gof.Fault.{Err, not_found, ok, err, Action, Result-cases}
use gof.G2cache.Store.{Store, IsStore}
use gof.G2db.Cache.{get_or_store, is_not_found}

module _ {W : Type 0} (s : Store W) (laws : IsStore s) (key : Text) (fn : Action W Text)
    (w : W) where
  -- A hit gives the cached bytes and neither loads nor changes anything.
  get_or_store_hit : (d : Text) → s.get key w ≡ ok d → get_or_store s key fn w ≡ (ok d, w)
  unfolding get_or_store
  get_or_store_hit d h = ground (arith, h)

  pub get_or_store_miss :
      (d : Text) (w' : W)
      → s.get key w ≡ err not_found
      → fn w ≡ (ok d, w')
      → get_or_store s key fn w ≡ (ok d, (s.set key d w').1)
  unfolding get_or_store
  get_or_store_miss d w' h e = ground (arith, h, e, laws.set_ok key d w')

  -- A load that fails is not cached: the key is as missing as the load left it, and the error comes
  -- back.
  pub get_or_store_failed :
      (e : Err) (w' : W)
      → s.get key w ≡ err not_found
      → fn w ≡ (err e, w')
      → get_or_store s key fn w ≡ (err e, w')
  unfolding get_or_store
  get_or_store_failed e w' h q = ground (arith, h, q)

  -- On a cache that keeps its promises, after a read that succeeded every read of the key gives the
  -- same bytes, with no load and no change, whatever load it is handed.
  pub get_or_store_again :
      (d : Text) (again : Action W Text)
      → (get_or_store s key fn w).0 ≡ ok d
      → get_or_store s key again (get_or_store s key fn w).1 ≡ (ok d, (get_or_store s key fn w).1)
  get_or_store_again d again h = elim (Result-cases (s.get key w)) [
    | inl (c, q) ↦ (unfold get_or_store in ground (arith, q, h))
    | inr (e, q) ↦ elim (Bool-cases (is_not_found e)) [
      | inr f ↦ (unfold get_or_store in ground (arith, q, f, h))
      | inl t ↦ elim (Result-cases (fn w).0) [
        | inr (x, z) ↦ (unfold get_or_store in ground (arith, q, t, z, h))
        | inl (c, z) ↦
            (unfold get_or_store in
              ground (
                arith,
                q,
                t,
                z,
                h,
                laws.set_ok key c (fn w).1,
                laws.get-set key key c (fn w).1,
                text_eq_refl key,
              ))
      ]
    ]
  ]
