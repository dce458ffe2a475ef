-- ===== src/App/Steps.antt =====
-- Steps of the start of the application, on what is registered and on the rest of the world.
use gof.Base.{◌≡◌, ap, ◌∙◌, inl, inr, Bool, Option, none, some, arith, Option-cases}
use gof.G2util.Graceful.{Graceful}

-- what the start keeps of itself: the registrations, the flag of `populateOnce`, and whether the log of
-- the database is open
pub record Ledger : Type 0 where
  pub graceful : Graceful
  pub once : Bool
  pub sql_out : Bool

abbrev pub State : Type 0 → Type 0
State W = Ledger × W

abbrev pub Step : Type 0 → Type 0
Step W = State W → Option (State W)

module _ {W : Type 0} where
  infixl 5 ◌>>◌
  abbrev pub ◌>>◌ : Step W → Step W → Step W
  ◌>>◌ m k s = elim (m s) [ none ↦ none | some t ↦ k t ]

  abbrev pub on_world : (W → Option W) → Step W
  on_world a (l, w) = elim (a w) [ none ↦ none | some w' ↦ some (l, w') ]

  abbrev pub on_ledger : (Ledger → Ledger) → Step W
  on_ledger f (l, w) = some (f l, w)

  -- A step does `f` to the ledger whenever it ends.
  abbrev pub Does : Step W → (Ledger → Ledger) → Type 0
  Does m f = (s t : State W) → m s ≡ some t → t.0 ≡ f s.0

  pub Does->> :
      (m k : Step W) (f g : Ledger → Ledger) → Does m f → Does k g → Does (m >> k) (λ l. g (f l))
  Does->> m k f g hm hk s t e = elim (Option-cases (m s)) [
    | inl n ↦ ground (arith, e, n)
    | inr (u, n) ↦
        (let first = hm s u n in
          let after : k u ≡ some t = ground (arith, e, n) in hk u t after ∙ ap g first)
  ]

  pub Does-on_world : (a : W → Option W) → Does (on_world a) (λ l. l)
  Does-on_world a (l, w) t e = elim (Option-cases (a w)) [
    | inl n ↦ ground (arith, e, n)
    | inr (u, n) ↦ ground (arith, e, n)
  ]

  pub Does-on_ledger : (f : Ledger → Ledger) → Does (on_ledger f) f
  Does-on_ledger f (l, w) t e = ground (arith, e)
