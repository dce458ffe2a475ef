-- ===== src/G2db/Cache/Invalidate.antt =====
-- Deleting keys by a published message.
use gof.Base.{
  ◌≡◌, refl, Option, none, some, List, [], ◌∷◌, arith, if◌then◌else◌, any, Text, text_eq,
}
use gof.Fault.{not_found, err}
use gof.G2cache.Store.{Store, IsStore}
use gof.G2db.Cache.{delete, delete_keys, on_delete}

module _ {W : Type 0} (s : Store W) (laws : IsStore s) where
  get-delete_keys :
      (keys : List Text) (j : Text) (w : W)
      → s.get j (delete_keys s keys w)
        ≡ (if any (λ k. text_eq k j) keys then err not_found else s.get j w)
  unfolding delete_keys
  get-delete_keys [] j w = refl
  get-delete_keys (k ∷ keys) j w = ground (
    arith,
    get-delete_keys keys j (delete s k (s.delete k w).1),
    laws.get-delete k j (s.delete k w).1,
    laws.get-delete k j w,
  )

  -- A message that decodes to keys makes exactly those keys missing, and one that does not decode
  -- changes nothing.
  pub get-on_delete :
      (payload : Option (List Text)) (j : Text) (w : W)
      → s.get j (on_delete s payload w) ≡ elim payload [
        | none ↦ s.get j w
        | some keys ↦ (if any (λ k. text_eq k j) keys then err not_found else s.get j w)
      ]
  unfolding on_delete
  get-on_delete none j w = refl
  get-on_delete (some keys) j w = get-delete_keys keys j w
