-- ===== src/G2emq/Queue/Drain.antt =====
-- The goroutine empties the channel.
use gof.Base.{◌≡◌, refl, inl, inr, none, some, List, [], ◌∷◌, arith, Option-cases, Text}
use gof.Fault.{Action}
use gof.G2emq.{Payload}
use gof.G2emq.Queue.{Job, Queue, Event, received, returned, step, run, run_job, accepted}
use gof.G2emq.Queue.Order.{publish_all, waiting}

-- what the goroutine does with the channel
unfoldable pub drain : {V : Type 0} → List (Job V) → List (Event V)
drain [] = []
drain (j ∷ js) = received ∷ returned ∷ drain js

accepted-drain : {V : Type 0} (js : List (Job V)) → accepted (drain js) ≡ []
unfolding accepted drain
accepted-drain [] = refl
accepted-drain (j ∷ js) = accepted-drain js

module _ {W V : Type 0} (publish : Text → Payload V → Action W (Unit {0})) where
  idle_drains :
      (js : List (Job V)) (q : Queue W V)
      → q.running ≡ none
      → q.pub_c ≡ js
      → (q' : Queue W V) × (run publish (drain js) q ≡ some q')
        × (q'.world ≡ publish_all publish js q.world)
        × (waiting q' ≡ [])
  unfolding run step drain run_job publish_all waiting
  idle_drains [] q idle has = (q, refl, refl, ground (arith, idle, has))
  idle_drains (j ∷ js) q idle has =
      let (q', r, w, e) =
        idle_drains js (run_job publish j (record q { pub_c = js; running = some j })) refl refl in
      (q', ground (arith, idle, has, r), w, e)

  -- However far the goroutine has come, it can end the publication in progress and then carry out
  -- all that wait with no call from outside: the broker then has seen them one after another, and
  -- none waits.
  pub queue_drains :
      (q : Queue W V)
      → (es : List (Event V)) × (q' : Queue W V) × (run publish es q ≡ some q')
        × (accepted es ≡ [])
        × (q'.world ≡ publish_all publish (waiting q) q.world)
        × (waiting q' ≡ [])
  queue_drains q = elim (Option-cases q.running) [
    | inl e ↦
        (let (q', r, w, d) = idle_drains q.pub_c q e refl in
          (
            drain q.pub_c,
            q',
            r,
            accepted-drain q.pub_c,
            (unfold waiting in ground (arith, e, w)),
            d,
          ))
    | inr (j, e) ↦
        (let (q', r, w, d) =
            idle_drains q.pub_c (run_job publish j q) (unfold run_job in refl)
              (unfold run_job in refl) in
          (
            returned ∷ drain q.pub_c,
            q',
            (unfold run step in ground (arith, e, r)),
            (unfold accepted in accepted-drain q.pub_c),
            (unfold waiting publish_all run_job in ground (arith, e, w)),
            d,
          ))
  ]
