-- ===== src/G2db/Cache/Atomic/Once.antt =====
-- How often a key is loaded while calls run at once.
use gof.Base.{
  ℕ, suc, ◌+◌, ◌≤◌, ◌≡◌, refl, sym, inl, inr, Bool, true, false, Option, none, some, List, [], ◌∷◌,
  arith, if◌then◌else◌, Bool-cases, Option-cases, Text, text_eq, text_eq_iff,
}
use gof.Base.Dict.{get, get-put, get-remove}
use gof.Fault.{Result, ok, err, Action, Result-cases}
use gof.G2cache.Store.{Store, IsStore}
use gof.G2db.Cache.{is_not_found}
use gof.G2db.Cache.Atomic.{
  Stage, entered, missed, fetched, broken, Calls, Event, locks, looks, loads, breaks, stores,
  clears, drops, release, hold, look, fetch, break_load, keep_fetched, drop_key, atomic_step,
  atomic_run, idle,
}

-- how often a key occurs
abbrev pub count_key : Text → List Text → ℕ
count_key key [] = 0
count_key key (k ∷ ks) = if text_eq k key then suc (count_key key ks) else count_key key ks

abbrev cached : Result Text → Bool
cached (ok d) = true
cached (err e) = false

-- what may have been loaded beyond the deletions: what the cache or the holder of the lock has
abbrev allowance : Option Stage → Bool → ℕ
allowance (some (fetched d)) b = 1
allowance (some missed) b = 0
allowance (some broken) b = 0
allowance (some entered) b = if b then 1 else 0
allowance none b = if b then 1 else 0

allowance-le : (p : Option Stage) (b : Bool) → allowance p b ≤ 1
allowance-le (some (fetched d)) b = omega arith
allowance-le (some missed) b = omega arith
allowance-le (some broken) b = omega arith
allowance-le (some entered) b = ground arith
allowance-le none b = ground arith

module _ {W F : Type 0} (s : Store W) (laws : IsStore s) (load : F → Action W Text)
    (apart : (f : F) (j : Text) (w : W) → s.get j (load f w).1 ≡ s.get j w) where
  abbrev IsBounded : Calls W → Text → Type 0
  IsBounded x k =
      count_key k x.loaded_keys
      ≤ count_key k x.deleted_keys + allowance (get k x.held) (cached (s.get k x.world))

  drop_key-IsBounded : (key k : Text) (x : Calls W) → IsBounded x k → IsBounded (drop_key s key x) k
  unfolding drop_key
  drop_key-IsBounded key k x h = elim (Bool-cases (text_eq key k)) [
    | inl e ↦ ground (arith, e, h, allowance-le (get k x.held) (cached (s.get k x.world)))
    | inr e ↦ ground (arith, e, h, laws.get-delete key k x.world)
  ]

  hold-IsBounded :
      (key k : Text) (p : Stage) (x : Calls W)
      → (text_eq key k ≡ true
          → count_key k x.loaded_keys
            ≤ count_key k x.deleted_keys + allowance (some p) (cached (s.get k x.world)))
      → IsBounded x k
      → IsBounded (hold key p x) k
  unfolding hold
  hold-IsBounded key k p x g h = elim (Bool-cases (text_eq key k)) [
    | inl e ↦ rw (get-put key k p x.held, e) (g e)
    | inr e ↦ rw (get-put key k p x.held, e) h
  ]

  release-IsBounded :
      (key k : Text) (w : W) (r : Result Text) (x : Calls W)
      → (text_eq key k ≡ true
          → count_key k x.loaded_keys
            ≤ count_key k x.deleted_keys + allowance none (cached (s.get k w)))
      → (text_eq key k ≡ false → s.get k w ≡ s.get k x.world)
      → IsBounded x k
      → IsBounded (release key w r x) k
  unfolding release
  release-IsBounded key k w r x g same h = elim (Bool-cases (text_eq key k)) [
    | inl e ↦ rw (get-remove key k x.held, e) (g e)
    | inr e ↦ rw (get-remove key k x.held, e, same e) h
  ]

  -- what a bound at the key says when its holder is at `p`
  at_key :
      (key k : Text) (p : Option Stage) (x : Calls W)
      → get key x.held ≡ p
      → IsBounded x k
      → text_eq key k ≡ true
      → count_key k x.loaded_keys
        ≤ count_key k x.deleted_keys + allowance p (cached (s.get k x.world))
  at_key key k p x q h e = ground (arith, q, h, text_eq_iff key k)

  look-IsBounded :
      (key k : Text) (p : Option Stage) (x : Calls W) {y : Calls W}
      → get key x.held ≡ p
      → look s key p x ≡ some y
      → IsBounded x k
      → IsBounded y k
  look-IsBounded key k none x q r h = (unfold look in ground (arith, r))
  look-IsBounded key k (some missed) x q r h = (unfold look in ground (arith, r))
  look-IsBounded key k (some broken) x q r h = (unfold look in ground (arith, r))
  look-IsBounded key k (some (fetched d)) x q r h = (unfold look in ground (arith, r))
  look-IsBounded key k (some entered) x {y} q r h = elim (Result-cases (s.get key x.world)) [
    | inl (d, e) ↦
        (let stop : release key x.world (ok d) x ≡ y = (unfold look in ground (arith, r, e)) in
          rw (sym stop) (
            release-IsBounded key k x.world (ok d) x (at_key key k (some entered) x q h) (λ _. refl)
              h))
    | inr (f, e) ↦ elim (Bool-cases (is_not_found f)) [
      | inl n ↦
          (let on : hold key missed x ≡ y = (unfold look in ground (arith, r, e, n)) in
            rw (sym on) (
              hold-IsBounded key k missed x
                (λ t. ground (arith, e, at_key key k (some entered) x q h t, text_eq_iff key k, t))
                h))
      | inr n ↦
          (let stop : release key x.world (err f) x ≡ y =
              (unfold look in ground (arith, r, e, n)) in
            rw (sym stop) (
              release-IsBounded key k x.world (err f) x (at_key key k (some entered) x q h)
                (λ _. refl) h))
    ]
  ]

  fetch-IsBounded :
      (key k : Text) (f : F) (p : Option Stage) (x : Calls W) {y : Calls W}
      → get key x.held ≡ p
      → fetch load key f p x ≡ some y
      → IsBounded x k
      → IsBounded y k
  fetch-IsBounded key k f none x q r h = (unfold fetch in ground (arith, r))
  fetch-IsBounded key k f (some entered) x q r h = (unfold fetch in ground (arith, r))
  fetch-IsBounded key k f (some broken) x q r h = (unfold fetch in ground (arith, r))
  fetch-IsBounded key k f (some (fetched d)) x q r h = (unfold fetch in ground (arith, r))
  fetch-IsBounded key k f (some missed) x {y} q r h = elim (Result-cases (load f x.world).0) [
    | inr (e, n) ↦
        (let stop : release key (load f x.world).1 (err e) x ≡ y =
            (unfold fetch in ground (arith, r, n)) in
          rw (sym stop) (
            release-IsBounded key k (load f x.world).1 (err e) x
              (λ t. ground (arith, at_key key k (some missed) x q h t)) (λ _. apart f k x.world) h))
    | inl (d, n) ↦
        (let on : record (hold key (fetched d) x) {
          world = (load f x.world).1;
          loaded_keys = key ∷ x.loaded_keys;
        }
              ≡ y =
            (unfold fetch in ground (arith, r, n)) in
          rw (sym on) (
            unfold hold in
            elim (Bool-cases (text_eq key k)) [
              | inl t ↦
                  ground
                    (arith, t, get-put key k (fetched d) x.held, at_key key k (some missed) x q h t)
              | inr t ↦ ground (arith, t, get-put key k (fetched d) x.held, apart f k x.world, h)
            ]))
  ]

  break_load-IsBounded :
      (key k : Text) (f : F) (p : Option Stage) (x : Calls W) {y : Calls W}
      → get key x.held ≡ p
      → break_load load key f p x ≡ some y
      → IsBounded x k
      → IsBounded y k
  break_load-IsBounded key k f none x q r h = (unfold break_load in ground (arith, r))
  break_load-IsBounded key k f (some entered) x q r h = (unfold break_load in ground (arith, r))
  break_load-IsBounded key k f (some broken) x q r h = (unfold break_load in ground (arith, r))
  break_load-IsBounded key k f (some (fetched d)) x q r h = (unfold break_load in ground (arith, r))
  break_load-IsBounded key k f (some missed) x {y} q r h =
      (let on : record (hold key broken x) { world = (load f x.world).1 } ≡ y =
          (unfold break_load in ground (arith, r)) in
        rw (sym on) (
          unfold hold in
          elim (Bool-cases (text_eq key k)) [
            | inl t ↦
                ground (arith, t, get-put key k broken x.held, at_key key k (some missed) x q h t)
            | inr t ↦ ground (arith, t, get-put key k broken x.held, apart f k x.world, h)
          ]))

  keep_fetched-IsBounded :
      (key k : Text) (p : Option Stage) (x : Calls W) {y : Calls W}
      → get key x.held ≡ p
      → keep_fetched s key p x ≡ some y
      → IsBounded x k
      → IsBounded y k
  keep_fetched-IsBounded key k none x q r h = (unfold keep_fetched in ground (arith, r))
  keep_fetched-IsBounded key k (some entered) x q r h = (unfold keep_fetched in ground (arith, r))
  keep_fetched-IsBounded key k (some broken) x q r h = (unfold keep_fetched in ground (arith, r))
  keep_fetched-IsBounded key k (some missed) x q r h = (unfold keep_fetched in ground (arith, r))
  keep_fetched-IsBounded key k (some (fetched d)) x {y} q r h =
      let done : release key (s.set key d x.world).1 (ok d) x ≡ y =
        (unfold keep_fetched in ground (arith, r, laws.set_ok key d x.world)) in
      rw (sym done) (
        release-IsBounded key k (s.set key d x.world).1 (ok d) x
          (λ t.
            ground
              (arith, t, laws.get-set key k d x.world, at_key key k (some (fetched d)) x q h t))
          (λ t. ground (arith, t, laws.get-set key k d x.world)) h)

  atomic_step-IsBounded :
      (e : Event F) (k : Text) (x : Calls W) {y : Calls W}
      → atomic_step s load x e ≡ some y
      → IsBounded x k
      → IsBounded y k
  unfolding atomic_step
  atomic_step-IsBounded (locks key) k x {y} r h = elim (Option-cases (get key x.held)) [
    | inr (p, q) ↦ ground (arith, q, r)
    | inl q ↦
        (let on : hold key entered x ≡ y = ground (arith, q, r) in
          rw (sym on)
            (hold-IsBounded key k entered x (λ t. ground (arith, at_key key k none x q h t)) h))
  ]
  atomic_step-IsBounded (looks key) k x r h = look-IsBounded key k (get key x.held) x refl r h
  atomic_step-IsBounded (loads key f) k x r h = fetch-IsBounded key k f (get key x.held) x refl r h
  atomic_step-IsBounded (breaks key f) k x r h =
      break_load-IsBounded key k f (get key x.held) x refl r h
  atomic_step-IsBounded (stores key) k x r h =
      keep_fetched-IsBounded key k (get key x.held) x refl r h
  atomic_step-IsBounded (clears key) k x {y} r h = elim (Option-cases (get key x.held)) [
    | inr (p, q) ↦ ground (arith, q, r)
    | inl q ↦
        (let gone : drop_key s key x ≡ y = ground (arith, q, r) in
          rw (sym gone) (drop_key-IsBounded key k x h))
  ]
  atomic_step-IsBounded (drops key) k x {y} r h =
      let gone : drop_key s key x ≡ y = ground (arith, r) in
      rw (sym gone) (drop_key-IsBounded key k x h)

  atomic_run-IsBounded :
      (es : List (Event F)) (k : Text) (x : Calls W) {y : Calls W}
      → atomic_run s load x es ≡ some y
      → IsBounded x k
      → IsBounded y k
  unfolding atomic_run
  atomic_run-IsBounded [] k x r h = ground (arith, r, h)
  atomic_run-IsBounded (e ∷ es) k x {y} r h = elim (Option-cases (atomic_step s load x e)) [
    | inl n ↦ ground (arith, n, r)
    | inr (z, n) ↦
        atomic_run-IsBounded es k z {y = y} (ground (arith, n, r)) (atomic_step-IsBounded e k x n h)
  ]

  -- However calls that read a key through the cache interleave, with each other, with loads that panic
  -- and with deletions that take the lock or do not, a key is loaded with success at most once more than
  -- it was deleted, on a cache that keeps what is set and for loads that leave the cache alone.
  pub loaded_once :
      (es : List (Event F)) (k : Text) (w : W) {y : Calls W}
      → atomic_run s load (idle w) es ≡ some y
      → count_key k y.loaded_keys ≤ suc (count_key k y.deleted_keys)
  loaded_once es k w {y} r = omega (
    arith,
    atomic_run-IsBounded es k (idle w) r (omega arith),
    allowance-le (get k y.held) (cached (s.get k y.world)),
  )
