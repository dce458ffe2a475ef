-- ===== src/G2db/Cache/Atomic/Progress.antt =====
-- What the holder of a lock does when it is not disturbed.
use gof.Base.{
  ℕ, suc, ◌≤◌, ◌≡◌, refl, ap, ◌∙◌, inl, inr, Option, none, some, List, [], ◌∷◌, arith, Bool-cases,
  length, Text, text_eq_refl,
}
use mathlib.Core.Option.{some-injective}
use gof.Base.Dict.{get, get-put_self, get-remove}
use gof.Fault.{Result, ok, err, Action, ◌>>=◌, Result-cases}
use gof.G2cache.Store.{Store}
use gof.G2db.Cache.{is_not_found, store_loaded, get_or_store}
use gof.G2db.Cache.Atomic.{
  Stage, entered, missed, fetched, broken, Calls, Event, looks, loads, stores, release, hold, look,
  fetch, keep_fetched, atomic_step, atomic_run,
}

released :
    {W : Type 0} (key : Text) (w : W) (r : Result Text) (x : Calls W)
    → get key (release key w r x).held ≡ none
unfolding release
released key w r x = rw (get-remove key key x.held, text_eq_refl key) refl

module _ {W F : Type 0} (s : Store W) (load : F → Action W Text) where
  -- what is left of `getOrStore` for the holder of a lock; nothing, none, behind a load that panicked
  unfoldable pub remaining : Text → F → Stage → W → Option (Result Text × W)
  unfolding get_or_store store_loaded
  remaining key f entered w = some (get_or_store s key (load f) w)
  remaining key f missed w = some ((load f >>= store_loaded s key) w)
  remaining key f (fetched d) w = some (store_loaded s key d w)
  remaining key f broken w = none

  -- `n` steps at most lead to a state in which nobody holds the lock of the key, and the call has given
  -- the result and left the world of `out`.
  pub record Releases (key : Text) (x : Calls W) (out : Result Text × W) (n : ℕ) : Type 0 where
    pub steps : List (Event F)
    pub final : Calls W
    pub runs : atomic_run s load x steps ≡ some final
    pub free : get key final.held ≡ none
    pub answered : final.answers ≡ (key, out.0) ∷ x.answers
    pub left : final.world ≡ out.1
    pub short : length steps ≤ n

  one_step :
      (key : Text) (out : Result Text × W) (n : ℕ) (e : Event F) (x z : Calls W)
      → atomic_step s load x e ≡ some z
      → z.answers ≡ x.answers
      → Releases key z out n
      → Releases key x out (suc n)
  unfolding atomic_run
  one_step key out n e x z p a q = record {
    steps = e ∷ q.steps;
    final = q.final;
    runs = ground (arith, p, q.runs);
    free = q.free;
    answered = q.answered ∙ ap (λ l. (key, out.0) ∷ l) a;
    left = q.left;
    short = omega (arith, q.short);
  }

  last_step :
      (key : Text) (w : W) (r : Result Text) (n : ℕ) (e : Event F) (x : Calls W)
      → atomic_step s load x e ≡ some (release key w r x)
      → Releases key x (r, w) (suc n)
  unfolding atomic_run
  last_step key w r n e x p = record {
    steps = e ∷ [];
    final = release key w r x;
    runs = ground (arith, p);
    free = released key w r x;
    answered = (unfold release in refl);
    left = (unfold release in refl);
    short = omega arith;
  }

  longer :
      (key : Text) (x : Calls W) (out out' : Result Text × W) (m n : ℕ)
      → m ≤ n
      → out ≡ out'
      → Releases key x out m
      → Releases key x out' n
  longer key x out out' m n l o q = record {
    steps = q.steps;
    final = q.final;
    runs = q.runs;
    free = q.free;
    answered = q.answered ∙ ap (λ u. (key, u.0) ∷ x.answers) o;
    left = q.left ∙ ap (λ u. u.1) o;
    short = omega (arith, l, q.short);
  }

  from_fetched :
      (f : F) (key d : Text) (x : Calls W)
      → get key x.held ≡ some (fetched d)
      → Releases key x (store_loaded s key d x.world) 1
  from_fetched f key d x h = elim (Result-cases (s.set key d x.world).0) [
    | inl (u, n) ↦
        longer key x (ok d, (s.set key d x.world).1) _ 1 1 (omega arith)
          (unfold get_or_store store_loaded in ground (arith, n))
          (last_step key _ (ok d) 0 (stores key) x
            (unfold atomic_step keep_fetched in ground (arith, h, n)))
    | inr (e, n) ↦
        longer key x (err e, (s.set key d x.world).1) _ 1 1 (omega arith)
          (unfold get_or_store store_loaded in ground (arith, n))
          (last_step key _ (err e) 0 (stores key) x
            (unfold atomic_step keep_fetched in ground (arith, h, n)))
  ]

  from_missed :
      (f : F) (key : Text) (x : Calls W)
      → get key x.held ≡ some missed
      → Releases key x ((load f >>= store_loaded s key) x.world) 2
  from_missed f key x h = elim (Result-cases (load f x.world).0) [
    | inr (e, n) ↦
        longer key x (err e, (load f x.world).1) _ 2 2 (omega arith)
          (unfold get_or_store store_loaded in ground (arith, n))
          (last_step key _ (err e) 1 (loads key f) x
            (unfold atomic_step fetch in ground (arith, h, n)))
    | inl (d, n) ↦
        (let z = record (hold key (fetched d) x) {
          world = (load f x.world).1;
          loaded_keys = key ∷ x.loaded_keys;
        } in
          longer key x (store_loaded s key d (load f x.world).1) _ 2 2 (omega arith)
            (unfold get_or_store store_loaded in ground (arith, n))
            (one_step key _ 1 (loads key f) x z (unfold atomic_step fetch in ground (arith, h, n))
              (unfold hold in refl)
              (from_fetched f key d z (unfold hold in get-put_self key (fetched d) x.held))))
  ]

  from_entered :
      (f : F) (key : Text) (x : Calls W)
      → get key x.held ≡ some entered
      → Releases key x (get_or_store s key (load f) x.world) 3
  unfolding hold
  from_entered f key x h = elim (Result-cases (s.get key x.world)) [
    | inl (d, e) ↦
        longer key x (ok d, x.world) _ 3 3 (omega arith)
          (unfold get_or_store store_loaded in ground (arith, e))
          (last_step key _ (ok d) 2 (looks key) x (unfold atomic_step look in ground (arith, h, e)))
    | inr (e, n) ↦ elim (Bool-cases (is_not_found e)) [
      | inr t ↦
          longer key x (err e, x.world) _ 3 3 (omega arith)
            (unfold get_or_store store_loaded in ground (arith, n, t))
            (last_step key _ (err e) 2 (looks key) x
              (unfold atomic_step look in ground (arith, h, n, t)))
      | inl t ↦
          longer key x ((load f >>= store_loaded s key) x.world) _ 3 3 (omega arith)
            (unfold get_or_store store_loaded in ground (arith, n, t))
            (one_step key _ 2 (looks key) x (hold key missed x)
              (unfold atomic_step look in ground (arith, h, n, t)) refl
              (from_missed f key (hold key missed x)
                (unfold hold in get-put_self key missed x.held)))
    ]
  ]

  -- Unless its load panics, a call gives its lock back: whatever the others have done, the call that
  -- holds the lock of a key, with something of `GetOrStore` left, can go on by itself with a load that
  -- returns, gives the lock back in at most three steps, and has then given the result and left the
  -- world of what was left of `GetOrStore` as one step.
  pub lock_given_back :
      (f : F) (key : Text) (p : Stage) (x : Calls W) (out : Result Text × W)
      → get key x.held ≡ some p
      → remaining key f p x.world ≡ some out
      → Releases key x out 3
  unfolding remaining
  lock_given_back f key entered x out h e =
      longer key x _ out 3 3 (omega arith) (some-injective _ out e) (from_entered f key x h)
  lock_given_back f key missed x out h e =
      longer key x _ out 2 3 (omega arith) (some-injective _ out e) (from_missed f key x h)
  lock_given_back f key (fetched d) x out h e =
      longer key x _ out 1 3 (omega arith) (some-injective _ out e) (from_fetched f key d x h)
  lock_given_back f key broken x out h e = cc
