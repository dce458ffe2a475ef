-- ===== src/G2util/GoPool.antt =====
-- g2util/goroutine.go: the pool's counter of tasks. The pool itself is ants; it runs a task to its
-- end, or catches its panic, or refuses it.
pub mod Counter
use gof.Base.{ℕ, ◌+◌, ◌-◌, Bool, not, Option, none, some, List, [], ◌∷◌, ◌==◌, if◌then◌else◌}

-- `GoPool`: the counter `size`, the tasks that run, and the counter of the wait group
pub record Pool : Type 0 where
  pub size : ℕ
  pub running : ℕ
  pub wait : ℕ

abbrev pub new_pool : Pool
new_pool = record { size = 0; running = 0; wait = 0 }

-- What happens: `Go` hands a task to the pool, which takes or refuses it; a task returns, with or
-- without an error, and counts down; a task panics, which skips the count.
pub data Event : Type 0 where
  taken : Event
  refused : Event
  returns : Event
  panics : Event

unfoldable pub step : Pool → Event → Option Pool
step p taken = some (record p { size = p.size + 1; running = p.running + 1 })
step p refused = some (record p { size = p.size + 1 })
step p returns =
    if p.running == 0 then none else some (record p { size = p.size - 1; running = p.running - 1 })
step p panics = if p.running == 0 then none else some (record p { running = p.running - 1 })

-- a history, if each event can happen in its place
unfoldable pub run : Pool → List Event → Option Pool
unfolding step
run p [] = some p
run p (e ∷ es) = elim (step p e) [ none ↦ none | some q ↦ run q es ]

-- `AfterShutdown` releases the pool at once if the wait group's counter is 0
unfoldable pub waits_at_shutdown : Pool → Bool
waits_at_shutdown p = not (p.wait == 0)
