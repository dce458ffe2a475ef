-- ===== src/G2db/Cache/Atomic/Lost.antt =====
-- What a load that panics leaves behind.
use gof.Base.{
  ◌≡◌, ap, ◌∙◌, ◌≢◌, ◌⊎◌, inl, inr, Option, none, some, List, [], ◌∷◌, arith, Bool-cases,
  Option-cases, Text, text_eq, text_eq_iff, text_eq_refl,
}
use gof.Base.Dict.{get, put, remove, get-put, get-remove}
use gof.Fault.{Action, Result-cases}
use gof.G2cache.Store.{Store}
use gof.G2db.Cache.{is_not_found}
use gof.G2db.Cache.Atomic.{
  Stage, entered, missed, fetched, broken, Calls, Event, locks, looks, loads, breaks, stores,
  clears, drops, release, hold, look, fetch, break_load, keep_fetched, drop_key, atomic_step,
  atomic_run,
}

-- A step changes the lock of no key but `j`.
abbrev OnlyAt : {W : Type 0} → Text → Calls W → Calls W → Type 0
OnlyAt j x y = (y.held ≡ remove j x.held) ⊎ ((p : Stage) × (y.held ≡ put j p x.held))

module _ {W F : Type 0} (s : Store W) (load : F → Action W Text) where
  look-OnlyAt :
      (j : Text) (p : Option Stage) (x y : Calls W)
      → look s j p x ≡ some y
      → (p ≢ some broken) × OnlyAt j x y
  look-OnlyAt j none x y r = (unfold look in ground (arith, r))
  look-OnlyAt j (some missed) x y r = (unfold look in ground (arith, r))
  look-OnlyAt j (some (fetched d)) x y r = (unfold look in ground (arith, r))
  look-OnlyAt j (some broken) x y r = (unfold look in ground (arith, r))
  look-OnlyAt j (some entered) x y r = (
    (λ e. cc),
    elim (Result-cases (s.get j x.world)) [
      | inl (d, e) ↦ inl (unfold look release in ground (arith, r, e))
      | inr (f, e) ↦ elim (Bool-cases (is_not_found f)) [
        | inl n ↦ inr (missed, (unfold look hold in ground (arith, r, e, n)))
        | inr n ↦ inl (unfold look release in ground (arith, r, e, n))
      ]
    ],
  )

  fetch-OnlyAt :
      (j : Text) (f : F) (p : Option Stage) (x y : Calls W)
      → fetch load j f p x ≡ some y
      → (p ≢ some broken) × OnlyAt j x y
  fetch-OnlyAt j f none x y r = (unfold fetch in ground (arith, r))
  fetch-OnlyAt j f (some entered) x y r = (unfold fetch in ground (arith, r))
  fetch-OnlyAt j f (some (fetched d)) x y r = (unfold fetch in ground (arith, r))
  fetch-OnlyAt j f (some broken) x y r = (unfold fetch in ground (arith, r))
  fetch-OnlyAt j f (some missed) x y r = (
    (λ e. cc),
    elim (Result-cases (load f x.world).0) [
      | inl (d, e) ↦ inr (fetched d, (unfold fetch hold in ground (arith, r, e)))
      | inr (t, e) ↦ inl (unfold fetch release in ground (arith, r, e))
    ],
  )

  break_load-OnlyAt :
      (j : Text) (f : F) (p : Option Stage) (x y : Calls W)
      → break_load load j f p x ≡ some y
      → (p ≢ some broken) × OnlyAt j x y
  break_load-OnlyAt j f none x y r = (unfold break_load in ground (arith, r))
  break_load-OnlyAt j f (some entered) x y r = (unfold break_load in ground (arith, r))
  break_load-OnlyAt j f (some (fetched d)) x y r = (unfold break_load in ground (arith, r))
  break_load-OnlyAt j f (some broken) x y r = (unfold break_load in ground (arith, r))
  break_load-OnlyAt j f (some missed) x y r =
      ((λ e. cc), inr (broken, (unfold break_load hold in ground (arith, r))))

  keep_fetched-OnlyAt :
      (j : Text) (p : Option Stage) (x y : Calls W)
      → keep_fetched s j p x ≡ some y
      → (p ≢ some broken) × OnlyAt j x y
  keep_fetched-OnlyAt j none x y r = (unfold keep_fetched in ground (arith, r))
  keep_fetched-OnlyAt j (some entered) x y r = (unfold keep_fetched in ground (arith, r))
  keep_fetched-OnlyAt j (some missed) x y r = (unfold keep_fetched in ground (arith, r))
  keep_fetched-OnlyAt j (some broken) x y r = (unfold keep_fetched in ground (arith, r))
  keep_fetched-OnlyAt j (some (fetched d)) x y r = (
    (λ e. cc),
    elim (Result-cases (s.set j d x.world).0) [
      | inl (u, e) ↦ inl (unfold keep_fetched release in ground (arith, r, e))
      | inr (t, e) ↦ inl (unfold keep_fetched release in ground (arith, r, e))
    ],
  )

  -- the lock of a broken call stays, as no step can happen at its key
  kept :
      (j k : Text) (x y : Calls W)
      → (get j x.held ≢ some broken) × OnlyAt j x y
      → get k x.held ≡ some broken
      → get k y.held ≡ some broken
  kept j k x y (free, only) h = elim (Bool-cases (text_eq j k)) [
    | inl t ↦ absurd (free (ap (λ (i : Text). get i x.held) ((text_eq_iff j k).0 t) ∙ h))
    | inr t ↦ elim only [
      | inl e ↦ ground (arith, e, t, get-remove j k x.held, h)
      | inr (p, e) ↦ ground (arith, e, t, get-put j k p x.held, h)
    ]
  ]

  atomic_step-kept :
      (e : Event F) (k : Text) (x y : Calls W)
      → atomic_step s load x e ≡ some y
      → get k x.held ≡ some broken
      → get k y.held ≡ some broken
  unfolding atomic_step
  atomic_step-kept (locks j) k x y r h = elim (Option-cases (get j x.held)) [
    | inr (p, q) ↦ ground (arith, q, r)
    | inl q ↦
        kept j k x y
          ((λ b. ground (arith, b, q)), inr (entered, (unfold hold in ground (arith, q, r)))) h
  ]
  atomic_step-kept (looks j) k x y r h = kept j k x y (look-OnlyAt j (get j x.held) x y r) h
  atomic_step-kept (loads j f) k x y r h = kept j k x y (fetch-OnlyAt j f (get j x.held) x y r) h
  atomic_step-kept (breaks j f) k x y r h =
      kept j k x y (break_load-OnlyAt j f (get j x.held) x y r) h
  atomic_step-kept (stores j) k x y r h =
      kept j k x y (keep_fetched-OnlyAt j (get j x.held) x y r) h
  atomic_step-kept (clears j) k x y r h = elim (Option-cases (get j x.held)) [
    | inr (p, q) ↦ ground (arith, q, r)
    | inl q ↦ (unfold drop_key in ground (arith, q, r, h))
  ]
  atomic_step-kept (drops j) k x y r h = (unfold drop_key in ground (arith, r, h))

  atomic_run-kept :
      (es : List (Event F)) (k : Text) (x y : Calls W)
      → atomic_run s load x es ≡ some y
      → get k x.held ≡ some broken
      → get k y.held ≡ some broken
  unfolding atomic_run
  atomic_run-kept [] k x y r h = ground (arith, r, h)
  atomic_run-kept (e ∷ es) k x y r h = elim (Option-cases (atomic_step s load x e)) [
    | inl n ↦ ground (arith, n, r)
    | inr (z, n) ↦ atomic_run-kept es k z y (ground (arith, n, r)) (atomic_step-kept e k x z n h)
  ]

  -- A load that panics takes the lock of its key with it: whatever happens behind it, in any order, the
  -- lock is never given back, and no call of the key gets it again.
  pub lock_lost :
      (key : Text) (f : F) (es : List (Event F)) (x y z : Calls W)
      → atomic_step s load x (breaks key f) ≡ some y
      → atomic_run s load y es ≡ some z
      → (get key z.held ≡ some broken) × (atomic_step s load z (locks key) ≡ none)
  lock_lost key f es x y z r t =
      let start : get key y.held ≡ some broken =
        broken_at (get key x.held) (unfold atomic_step in r) in
      let stays = atomic_run-kept es key y z t start in
      (stays, (unfold atomic_step in ground (arith, stays)))
    where
      broken_at :
          (p : Option Stage) → break_load load key f p x ≡ some y → get key y.held ≡ some broken
      broken_at none r = (unfold break_load in ground (arith, r))
      broken_at (some entered) r = (unfold break_load in ground (arith, r))
      broken_at (some (fetched d)) r = (unfold break_load in ground (arith, r))
      broken_at (some broken) r = (unfold break_load in ground (arith, r))
      broken_at (some missed) r =
          (unfold break_load hold in
            ground (arith, r, get-put key key broken x.held, text_eq_refl key))
