-- ===== src/G2cache/Store.antt =====
-- g2cache/store/store.go: the interface of a cache, and the registry of caches by name.
pub mod Registry
use gof.Base.{◌≡◌, none, some, List, [], ◌∷◌, ◌++◌, if◌then◌else◌, Text, codes, text_eq}
use gof.Base.Dict.{Dict, get, put}
use gof.Fault.{not_found, Result, ok, err, Action, plain}

-- `ItfCache`, over the state `W` that the cache lives in. Reads change nothing that is modelled.
pub record Store (W : Type 0) : Type 0 where
  pub get : Text → W → Result Text
  pub set : Text → Text → Action W (Unit {0})
  pub delete : Text → Action W (Unit {0})
  pub reset : Action W (Unit {0})

-- What a cache promises while it neither evicts nor fails: reads give what was set last.
pub record IsStore {W : Type 0} (s : Store W) : Type 0 where
  pub set_ok : (k v : Text) (w : W) → (s.set k v w).0 ≡ ok tt
  pub get-set :
      (k j v : Text) (w : W) → s.get j (s.set k v w).1 ≡ (if text_eq k j then ok v else s.get j w)
  pub delete_ok : (k : Text) (w : W) → (s.delete k w).0 ≡ ok tt
  pub get-delete :
      (k j : Text) (w : W)
      → s.get j (s.delete k w).1 ≡ (if text_eq k j then err not_found else s.get j w)
  pub reset_ok : (w : W) → (s.reset w).0 ≡ ok tt
  pub get-reset : (j : Text) (w : W) → s.get j (s.reset w).1 ≡ err not_found

-- `Register` in the registry `ins`, of a cache with its name
unfoldable pub register {ℓ} : {C : Type ℓ} → Text → C → Dict C → Dict C
register name s ins = elim (get name ins) [ some _ ↦ ins | none ↦ put name s ins ]

-- `GetStore`
unfoldable pub get_store {ℓ} : {C : Type ℓ} → List Text → Dict C → Result C
get_store names ins =
    let name : Text = elim names [ [] ↦ codes "ledis" | n ∷ ns ↦ n ] in
    elim (get name ins) [
      | some s ↦ ok s
      | none ↦ err (plain (codes "store " ++ (name ++ codes " is not registered")))
    ]
