-- ===== src/G2emq/Queue.antt =====
-- g2emq/emq.go `PublishC` and `Start`: publications wait in a channel of 1000 places, and one goroutine
-- carries them out. A publication always ends, at the latest when its token is late.
pub mod Order
pub mod Drain
use gof.Base.{ℕ, Option, none, some, List, [], ◌∷◌, ◌++◌, ltb, if◌then◌else◌, length, Text}
use gof.Fault.{Err, Result, ok, err, Action}
use gof.G2emq.{Payload}

abbrev pub capacity : ℕ
capacity = 1000

-- a call of `PublishC`
pub record Job (V : Type 0) : Type 0 where
  pub topic : Text
  pub payload : Payload V

-- what the logger is told
pub data Report : Type 0 where
  failed : Text → Err → Report
  timed_out : Text → Report

-- the channel, the publication in progress, the world, and the reports
pub record Queue (W V : Type 0) : Type 0 where
  pub pub_c : List (Job V)
  pub running : Option (Job V)
  pub world : W
  pub reports : List Report

-- A call of `PublishC` gets its place, or its time runs out; the goroutine receives a publication, or
-- ends one.
pub data Event (V : Type 0) : Type 0 where
  sent : Job V → Event V
  expired : Job V → Event V
  received : Event V
  returned : Event V

abbrev pub started : {W V : Type 0} → W → Queue W V
started w = record { pub_c = []; running = none; world = w; reports = [] }

-- the function that `PublishC` sends
unfoldable pub report : Text → Result (Unit {0}) → List Report
report topic (ok u) = []
report topic (err e) = failed topic e ∷ []

module _ {W V : Type 0} (publish : Text → Payload V → Action W (Unit {0})) where
  unfoldable pub run_job : Job V → Queue W V → Queue W V
  unfolding report
  run_job j q =
      let (r, w) = publish j.topic j.payload q.world in
      record q { running = none; world = w; reports = q.reports ++ report j.topic r }

  -- One event, none where it cannot happen. A caller waits only as long as the channel is full.
  unfoldable pub step : Event V → Queue W V → Option (Queue W V)
  unfolding run_job
  step (sent j) q =
      if ltb (length q.pub_c) capacity then some (record q { pub_c = q.pub_c ++ j ∷ [] }) else none
  step (expired j) q =
      if ltb (length q.pub_c) capacity
      then none
      else some (record q { reports = q.reports ++ timed_out j.topic ∷ [] })
  step received q = elim q.running [
    | some r ↦ none
    | none ↦ elim q.pub_c [ [] ↦ none | j ∷ js ↦ some (record q { pub_c = js; running = some j }) ]
  ]
  step returned q = elim q.running [ none ↦ none | some j ↦ some (run_job j q) ]

  unfoldable pub run : List (Event V) → Queue W V → Option (Queue W V)
  unfolding step
  run [] q = some q
  run (e ∷ es) q = elim (step e q) [ none ↦ none | some q' ↦ run es q' ]

-- the publications that got a place
unfoldable pub accepted : {V : Type 0} → List (Event V) → List (Job V)
accepted [] = []
accepted (sent j ∷ es) = j ∷ accepted es
accepted (expired j ∷ es) = accepted es
accepted (received ∷ es) = accepted es
accepted (returned ∷ es) = accepted es
