-- ===== src/Fault.antt =====
-- The errors that g2cache and g2db tell apart, and code that may fail on a world of type `W`. What
-- was changed before an error stays changed.
use gof.Base.{◌≡◌, refl, ◌⊎◌, inl, inr, ◌++◌, arith, Text, codes}

-- `store.ErrNotFound`, `redis.Nil`, `ErrorMysqlNotFound`, `j2rpc.TokenError`, an error wrapped by `%w`
-- between two texts, and every other error by its text
pub data Err : Type 0 where
  not_found : Err
  redis_nil : Err
  mysql_not_found : Text → Err
  token : Text → Err
  wrap : Text → Err → Text → Err
  plain : Text → Err

-- the method `Error`
unfoldable pub err_text : Err → Text
err_text not_found = codes "item not found"
err_text redis_nil = codes "redis: nil"
err_text (mysql_not_found t) = t
err_text (token t) = t
err_text (wrap t e u) = t ++ (err_text e ++ u)
err_text (plain t) = t

pub data Result {ℓ} (A : Type ℓ) : Type ℓ where
  ok : A → Result A
  err : Err → Result A

abbrev pub Action : Type 0 → Type 0 → Type 0
Action W A = W → Result A × W

abbrev pub Done : Type 0
Done = Result (Unit {0})

module _ {W : Type 0} where
  abbrev pub pure : {A : Type 0} → A → Action W A
  pure a w = (ok a, w)

  abbrev pub raise : {A : Type 0} → Err → Action W A
  raise e w = (err e, w)

  abbrev pub lift : {A : Type 0} → Result A → Action W A
  lift r w = (r, w)

  abbrev pub gets : {A : Type 0} → (W → Result A) → Action W A
  gets f w = (f w, w)

  abbrev pub continue : {A B : Type 0} → Result A → (A → Action W B) → Action W B
  continue (ok a) f w = f a w
  continue (err e) f w = (err e, w)

  infixl 5 ◌>>=◌ ◌>>◌
  abbrev pub ◌>>=◌ : {A B : Type 0} → Action W A → (A → Action W B) → Action W B
  ◌>>=◌ m f w = let (r, w') = m w in continue r f w'

  abbrev pub ◌>>◌ : {B : Type 0} → Action W (Unit {0}) → Action W B → Action W B
  m >> k = m >>= λ _. k

pub Result-cases {ℓ} :
    {A : Type ℓ} (r : Result A) → ((a : A) × (r ≡ ok a)) ⊎ ((e : Err) × (r ≡ err e))
Result-cases (ok a) = inl (a, refl)
Result-cases (err e) = inr (e, refl)

-- Inversion of a sequence that succeeded.
pub bind_ok :
    {W A B : Type 0} (m : Action W A) (f : A → Action W B) (w : W) {b : B} {w' : W}
    → (m >>= f) w ≡ (ok b, w')
    → (a : A) × (v : W) × (m w ≡ (ok a, v)) × (f a v ≡ (ok b, w'))
bind_ok {W} {A} {B} m f w {b} {w'} h = go (m w).0 (m w).1 h refl
  where
    go :
        (r : Result A) (v : W)
        → continue r f v ≡ (ok b, w')
        → m w ≡ (r, v)
        → (a : A) × (v : W) × (m w ≡ (ok a, v)) × (f a v ≡ (ok b, w'))
    go (ok a) v h e = (a, v, e, h)
    go (err x) v h e = ground (arith, h)
