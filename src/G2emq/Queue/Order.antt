-- ===== src/G2emq/Queue/Order.antt =====
-- Publications in the order of their acceptance, and none left behind.
use gof.Base.{
  ◌≤◌, ◌≡◌, refl, sym, ap, ◌∙◌, inl, inr, true, none, some, List, [], ◌∷◌, ◌++◌, append_assoc,
  append-nil, arith, ltb, Bool-cases, Option-cases, List-cases, length, length-append, Text,
}
use gof.Fault.{Action}
use gof.G2emq.{Payload}
use gof.G2emq.Queue.{
  Job, Queue, Event, sent, expired, received, returned, started, step, run, run_job, accepted,
  capacity, timed_out,
}
use mathlib.Core.Option.{some-injective}
use mathlib.Core.Path

-- the publications that are not over
unfoldable pub waiting : {W V : Type 0} → Queue W V → List (Job V)
waiting q = elim q.running [ none ↦ q.pub_c | some j ↦ j ∷ q.pub_c ]

module _ {W V : Type 0} (publish : Text → Payload V → Action W (Unit {0})) where
  -- the world after publications one after another
  unfoldable pub publish_all : List (Job V) → W → W
  publish_all [] w = w
  publish_all (j ∷ js) w = publish_all js (publish j.topic j.payload w).1

  publish_all-append :
      (js ks : List (Job V)) (w : W) → publish_all (js ++ ks) w ≡ publish_all ks (publish_all js w)
  unfolding publish_all
  publish_all-append [] ks w = refl
  publish_all-append (j ∷ js) ks w = publish_all-append js ks (publish j.topic j.payload w).1

  -- From a start in a world: some publications are over, carried out one after another in that
  -- order; with those that wait they are the ones given; and the channel is within its capacity.
  pub record IsFifo (w : W) (given : List (Job V)) (q : Queue W V) : Type 0 where
    pub over : List (Job V)
    pub given_split : given ≡ over ++ waiting q
    pub world_over : q.world ≡ publish_all over w
    pub bounded : length q.pub_c ≤ capacity

  waiting-sent :
      (j : Job V) (q : Queue W V)
      → waiting (record q { pub_c = q.pub_c ++ j ∷ [] }) ≡ waiting q ++ j ∷ []
  unfolding waiting
  waiting-sent j q = elim (Option-cases q.running) [
    | inl e ↦ ground (arith, e)
    | inr (r, e) ↦ ground (arith, e)
  ]

  sent-IsFifo :
      (w : W) (given : List (Job V)) (j : Job V) (q : Queue W V)
      → IsFifo w given q
      → ltb (length q.pub_c) capacity ≡ true
      → IsFifo w (given ++ j ∷ []) (record q { pub_c = q.pub_c ++ j ∷ [] })
  sent-IsFifo w given j q f room = record {
    over = f.over;
    given_split = rw (waiting-sent j q, f.given_split) (append_assoc f.over (waiting q) (j ∷ []));
    world_over = f.world_over;
    bounded = ground (arith, room, length-append q.pub_c (j ∷ []));
  }

  received-IsFifo :
      (w : W) (given : List (Job V)) (j : Job V) (js : List (Job V)) (q : Queue W V)
      → IsFifo w given q
      → q.running ≡ none
      → q.pub_c ≡ j ∷ js
      → IsFifo w (given ++ []) (record q { pub_c = js; running = some j })
  unfolding waiting
  received-IsFifo w given j js q f idle has = record {
    over = f.over;
    given_split = append-nil given ∙ ground (arith, f.given_split, idle, has);
    world_over = f.world_over;
    bounded = ground (arith, f.bounded, has);
  }

  run_job-IsFifo :
      (w : W) (given : List (Job V)) (j : Job V) (q : Queue W V)
      → IsFifo w given q
      → q.running ≡ some j
      → IsFifo w (given ++ []) (run_job publish j q)
  unfolding waiting run_job publish_all
  run_job-IsFifo w given j q f busy = record {
    over = f.over ++ j ∷ [];
    given_split =
        append-nil given
        ∙ (ground (arith, f.given_split, busy) ∙ sym (append_assoc f.over (j ∷ []) q.pub_c));
    world_over =
        ap (λ v. (publish j.topic j.payload v).1) f.world_over
        ∙ sym (publish_all-append f.over (j ∷ []) w);
    bounded = f.bounded;
  }

  expired-IsFifo :
      (w : W) (given : List (Job V)) (j : Job V) (q : Queue W V)
      → IsFifo w given q
      → IsFifo w (given ++ []) (record q { reports = q.reports ++ timed_out j.topic ∷ [] })
  unfolding waiting
  expired-IsFifo w given j q f = record {
    over = f.over;
    given_split = append-nil given ∙ f.given_split;
    world_over = f.world_over;
    bounded = f.bounded;
  }

  step-IsFifo :
      (w : W) (given : List (Job V)) (e : Event V) (q q' : Queue W V)
      → IsFifo w given q
      → step publish e q ≡ some q'
      → IsFifo w (given ++ accepted (e ∷ [])) q'
  unfolding step accepted
  step-IsFifo w given (sent j) q q' f h = elim (Bool-cases (ltb (length q.pub_c) capacity)) [
    | inl b ↦
        Path.subst (λ x. IsFifo w (given ++ j ∷ []) x) (ground (arith, h, b))
          (sent-IsFifo w given j q f b)
    | inr b ↦ ground (arith, h, b)
  ]
  step-IsFifo w given (expired j) q q' f h = elim (Bool-cases (ltb (length q.pub_c) capacity)) [
    | inl b ↦ ground (arith, h, b)
    | inr b ↦
        Path.subst (λ x. IsFifo w (given ++ []) x) (ground (arith, h, b))
          (expired-IsFifo w given j q f)
  ]
  step-IsFifo w given received q q' f h = elim (Option-cases q.running) [
    | inr (r, e) ↦ ground (arith, h, e)
    | inl e ↦ elim (List-cases q.pub_c) [
      | inl c ↦ ground (arith, h, e, c)
      | inr (j, js, c) ↦
          Path.subst (λ x. IsFifo w (given ++ []) x) (ground (arith, h, e, c))
            (received-IsFifo w given j js q f e c)
    ]
  ]
  step-IsFifo w given returned q q' f h = elim (Option-cases q.running) [
    | inl e ↦ ground (arith, h, e)
    | inr (j, e) ↦
        Path.subst (λ x. IsFifo w (given ++ []) x) (ground (arith, h, e))
          (run_job-IsFifo w given j q f e)
  ]

  accepted-cons :
      (e : Event V) (es : List (Event V)) → accepted (e ∷ es) ≡ accepted (e ∷ []) ++ accepted es
  unfolding accepted
  accepted-cons (sent j) es = refl
  accepted-cons (expired j) es = refl
  accepted-cons received es = refl
  accepted-cons returned es = refl

  run-IsFifo_from :
      (w : W) (given : List (Job V)) (es : List (Event V)) (q q' : Queue W V)
      → IsFifo w given q
      → run publish es q ≡ some q'
      → IsFifo w (given ++ accepted es) q'
  unfolding run accepted
  run-IsFifo_from w given [] q q' f h =
      Path.subst (λ x. IsFifo w x q') (sym (append-nil given))
        (Path.subst (λ x. IsFifo w given x) (some-injective q q' h) f)
  run-IsFifo_from w given (e ∷ es) q q' f h = elim (Option-cases (step publish e q)) [
    | inl n ↦ ground (arith, h, n)
    | inr (m, n) ↦
        Path.subst (λ x. IsFifo w x q')
          (append_assoc given (accepted (e ∷ [])) (accepted es)
            ∙ ap (λ x. given ++ x) (sym (accepted-cons e es)))
          (run-IsFifo_from w (given ++ accepted (e ∷ [])) es m q' (step-IsFifo w given e q m f n)
            (ground (arith, h, n)))
  ]

  -- Whatever callers and the goroutine did since the start: the publications that got a place are
  -- those that are over, in the order of their places, and those that wait, in that order too; the
  -- broker has seen those that are over, one after another; and no more wait in the channel than it
  -- holds.
  pub run-IsFifo :
      (es : List (Event V)) (w : W) (q : Queue W V)
      → run publish es (started w) ≡ some q
      → IsFifo w (accepted es) q
  unfolding publish_all waiting
  run-IsFifo es w q h =
      run-IsFifo_from w [] es (started w) q
        (record { over = []; given_split = refl; world_over = refl; bounded = omega arith }) h
