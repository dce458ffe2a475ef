-- ===== src/G2util/GoPool/Counter.antt =====
-- What the counters count.
use gof.Base.{
  ℕ, suc, ◌+◌, ◌-◌, ◌≡◌, refl, inl, inr, false, some, List, [], ◌∷◌, arith, ◌==◌, Bool-cases,
}
use gof.G2util.GoPool.{
  Pool, Event, taken, refused, returns, panics, new_pool, step, run, waits_at_shutdown,
}

-- how many tasks of a history were refused or panicked
abbrev pub lost : List Event → ℕ
lost [] = 0
lost (taken ∷ es) = lost es
lost (refused ∷ es) = suc (lost es)
lost (returns ∷ es) = lost es
lost (panics ∷ es) = suc (lost es)

size-run :
    (es : List Event) (p : Pool) (k : ℕ) {q : Pool}
    → p.size ≡ p.running + k
    → p.wait ≡ 0
    → run p es ≡ some q
    → (q.size ≡ q.running + (k + lost es)) × (q.wait ≡ 0)
unfolding run step
size-run [] p k e w h = ground (arith, e, w)
size-run (taken ∷ es) p k e w h = size-run es _ k (omega arith) w h
size-run (refused ∷ es) p k {q} e w h =
    let (a, b) = size-run es (record p { size = p.size + 1 }) (k + 1) (omega arith) w h in
    (omega arith, b)
size-run (returns ∷ es) p k {q} e w h = elim (Bool-cases (p.running == 0)) [
  | inl z ↦ ground (arith, z)
  | inr n ↦
      size-run es (record p { size = p.size - 1; running = p.running - 1 }) k (ground (arith, n)) w
        (ground (arith, n))
]
size-run (panics ∷ es) p k {q} e w h = elim (Bool-cases (p.running == 0)) [
  | inl z ↦ ground (arith, z)
  | inr n ↦
      let same : run (record p { running = p.running - 1 }) es ≡ some q = ground (arith, n) in
      let (a, b) =
        size-run es (record p { running = p.running - 1 }) (k + 1) (ground (arith, n)) w same in
      (omega arith, b)
]

-- After any history from a new pool, the counter exceeds the tasks that run by the number of tasks
-- that were refused or panicked; and a shutdown does not wait, however many tasks run.
pub size_new_pool :
    (es : List Event) {q : Pool}
    → run new_pool es ≡ some q
    → (q.size ≡ q.running + lost es) × (waits_at_shutdown q ≡ false)
unfolding waits_at_shutdown
size_new_pool es h =
    let (a, b) = size-run es new_pool 0 refl refl h in (omega arith, ground (arith, b))
