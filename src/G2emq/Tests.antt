-- ===== src/G2emq/Tests.antt =====
-- Runs of the queue at a broker that keeps what it is sent, newest first, and times out on empty bytes.
use gof.Base.{ℕ, ◌≡◌, refl, none, some, List, [], ◌∷◌, Text, codes}
use gof.Fault.{Action}
use gof.G2emq.{
  Client, late, over, Payload, bytes, string, value, constructed, publish, err_token_timeout,
}
use gof.G2emq.Queue.{Job, Queue, Event, sent, received, returned, started, run, accepted, failed}
use gof.G2emq.Queue.Order.{IsFifo, publish_all, waiting, run-IsFifo}
use gof.G2emq.Queue.Drain.{queue_drains}

abbrev World : Type 0
World = List (Text × Text)

abbrev broker : Client World (Unit {0})
broker = record {
  publish = λ t q r b w. (elim b [ [] ↦ late | c ∷ s ↦ over none ], (t, b) ∷ w);
  subscribe = λ t q h w. (over none, w);
  connect = λ w. (over none, w);
}

abbrev send : Text → Payload ℕ → Action World (Unit {0})
send = publish broker (λ n. n ∷ []) (record constructed { topic_prefix = codes "app/" })

abbrev greeting : Job ℕ
greeting = record { topic = codes "t"; payload = string (codes "hi") }

abbrev number : Job ℕ
number = record { topic = codes "u"; payload = value 7 }

abbrev silence : Job ℕ
silence = record { topic = codes "v"; payload = bytes [] }

abbrev events : List (Event ℕ)
events = sent greeting ∷ received ∷ sent silence ∷ returned ∷ received ∷ sent number ∷ returned ∷ []

abbrev left : Queue World ℕ
left = record {
  pub_c = number ∷ [];
  running = none;
  world = (codes "app/v", []) ∷ (codes "app/t", codes "hi") ∷ [];
  reports = failed (codes "v") err_token_timeout ∷ [];
}

events_run : run send events (started []) ≡ some left
unfolding run publish
events_run = refl

run-IsFifo_example : IsFifo send [] (accepted events) left
run-IsFifo_example = run-IsFifo send events [] left events_run

queue_drains_example :
    (es : List (Event ℕ)) × (q' : Queue World ℕ) × (run send es left ≡ some q')
    × (accepted es ≡ [])
    × (q'.world ≡ publish_all send (waiting left) left.world)
    × (waiting q' ≡ [])
queue_drains_example = queue_drains send left
