-- ===== src/G2db/Cache/Transparent.antt =====
-- Reading through a cache that may lose what it holds.
use gof.Base.{
  ◌≡◌, refl, sym, ap, ◌∙◌, inl, inr, false, Option, none, some, List, [], ◌∷◌, arith, if◌then◌else◌,
  any, Text, text_eq, text_eq_iff,
}
use gof.Fault.{not_found, ok, Action, Result-cases}
use gof.G2cache.Store.{Store}
use gof.G2cache.Ristretto.{IsLossyStore}
use gof.G2db.Cache.{get_or_store, is_not_found, delete, delete_keys, on_delete}

-- Whatever was set last for a key is what the database holds for it.
unfoldable pub IsFresh : {W : Type 0} → (Text → W → Option Text) → (Text → Text) → W → Type 0
IsFresh last truth w = (k d : Text) → last k w ≡ some d → d ≡ truth k

module _ {W : Type 0} (s : Store W) (last : Text → W → Option Text) (laws : IsLossyStore s last)
    (truth : Text → Text) where
  -- On a cache that may lose what it holds: if all that was set is what the database holds, then a
  -- read with a load that gives what the database holds, and sets nothing, gives it too, whether the
  -- cache still knows the key or not, and again all that was set is what the database holds.
  pub get_or_store_transparent :
      (key : Text) (fn : Action W Text) (w w' : W)
      → IsFresh last truth w
      → fn w ≡ (ok (truth key), w')
      → ((k : Text) → last k w' ≡ last k w)
      → ((get_or_store s key fn w).0 ≡ ok (truth key))
        × IsFresh last truth (get_or_store s key fn w).1
  unfolding IsFresh
  get_or_store_transparent key fn w w' fresh load kept = elim (Result-cases (s.get key w)) [
    | inl (d, q) ↦
        (let right = fresh key d (laws.get_ok key d w q) in
          let run : get_or_store s key fn w ≡ (ok d, w) =
            (unfold get_or_store in ground (arith, q)) in
          (ground (arith, run, right), λ k e h. fresh k e (ap (λ r. last k r.1) (sym run) ∙ h)))
    | inr (e, q) ↦
        (let missing : e ≡ not_found = laws.get_err key e w q in
          let run : get_or_store s key fn w ≡ (ok (truth key), (s.set key (truth key) w').1) =
            (unfold get_or_store is_not_found in
              ground (arith, q, missing, load, laws.set_ok key (truth key) w')) in
          (
            ap (λ r. r.0) run,
            λ k d h. ground (
              arith,
              text_eq_iff key k,
              laws.last-set key k (truth key) w',
              kept k,
              ap (λ r. last k r.1) run,
              h,
              fresh k d,
            ),
          ))
  ]

module _ {W : Type 0} (s : Store W) (last : Text → W → Option Text)
    (laws : IsLossyStore s last) where
  last-delete_keys :
      (keys : List Text) (j : Text) (w : W)
      → last j (delete_keys s keys w) ≡ (if any (λ k. text_eq k j) keys then none else last j w)
  unfolding delete_keys delete
  last-delete_keys [] j w = refl
  last-delete_keys (k ∷ keys) j w = ground (
    arith,
    last-delete_keys keys j (s.delete k (s.delete k w).1).1,
    laws.last-delete k j (s.delete k w).1,
    laws.last-delete k j w,
  )

  -- On a cache that may lose what it holds: if all that was set is what the database held, and the
  -- database has changed at no keys but those of a message, then after the message all that was set
  -- is what the database holds now.
  pub IsFresh-on_delete :
      (old new : Text → Text) (keys : List Text) (w : W)
      → IsFresh last old w
      → ((j : Text) → any (λ k. text_eq k j) keys ≡ false → new j ≡ old j)
      → IsFresh last new (on_delete s (some keys) w)
  unfolding IsFresh on_delete
  IsFresh-on_delete old new keys w fresh same j d h =
      ground (arith, last-delete_keys keys j w, h, fresh j d, same j)
