-- ===== src/G2cmd/Stop.antt =====
-- When the command `stop` ends.
use gof.Base.{
  ◌≡◌, refl, sym, ap, ◌∙◌, ◌⊎◌, inl, inr, Bool, true, false, some, List, [], ◌∷◌, ◌++◌, arith,
  Bool-cases,
}
use gof.Fault.{ok}
use gof.G2util.Exec.{Shell, process_is_running, kill_process}
use gof.G2cmd.{Place, pro_name, wait_stopped, stop_run}

-- the world after some ticks
unfoldable pub after : {W : Type 0} → List (W → W) → W → W
after [] w = w
after (t ∷ ts) w = after ts (t w)

module _ {W : Type 0} (sh : Shell W) (p : Place) where
  abbrev seen : W → Bool
  seen w = process_is_running sh (pro_name p) w

  -- the program is seen at every one of these ticks
  abbrev AllSeen : List (W → W) → W → Type 0
  AllSeen [] w = Unit
  AllSeen (t ∷ ts) w = (seen (t w) ≡ true) × AllSeen ts (t w)

  -- `w'` is the world at the first of the ticks at which the program is not seen.
  pub record First (ticks : List (W → W)) (w w' : W) : Type 0 where
    pub before : List (W → W)
    pub last : W → W
    pub behind : List (W → W)
    pub split : ticks ≡ before ++ last ∷ behind
    pub running : AllSeen before w
    pub ended : w' ≡ after (before ++ last ∷ []) w
    pub unseen : seen w' ≡ false

  unseen_at_once :
      (t : W → W) (ts : List (W → W)) (w : W) → seen (t w) ≡ false → First (t ∷ ts) w (t w)
  unseen_at_once t ts w f = record {
    before = [];
    last = t;
    behind = ts;
    split = refl;
    running = tt;
    ended = (unfold after in refl);
    unseen = f;
  }

  wait_stopped_ends :
      (t : W → W) (ts later : List (W → W)) (w : W)
      → seen (after (t ∷ ts) w) ≡ false
      → (w' : W) × (wait_stopped sh p (t ∷ ts ++ later) w ≡ some w') × First (t ∷ ts) w w'
  unfolding wait_stopped after
  wait_stopped_ends t [] later w h = (t w, ground (arith, h), unseen_at_once t [] w h)
  wait_stopped_ends t (u ∷ ts) later w h = elim (Bool-cases (seen (t w))) [
    | inr f ↦ (t w, ground (arith, f), unseen_at_once t (u ∷ ts) w f)
    | inl r ↦
        (let (w', e, f) = wait_stopped_ends u ts later (t w) h in
          (
            w',
            ground (arith, r, e),
            record {
              before = t ∷ f.before;
              last = f.last;
              behind = f.behind;
              split = ap (λ l. t ∷ l) f.split;
              running = (r, f.running);
              ended = f.ended;
              unseen = f.unseen;
            },
          ))
  ]

  -- `stop` ends, if the program is not seen when it starts, or not at one of the ticks after the
  -- signals: in the first case at once and with nothing changed, else at the first tick at which the
  -- program is not seen, and no earlier.
  pub stop_run_ends :
      (t : W → W) (ts later : List (W → W)) (w : W)
      → (seen w ≡ false) ⊎ (seen (after (t ∷ ts) (kill_process sh (pro_name p) w).1) ≡ false)
      → (w' : W) × (stop_run sh p (t ∷ ts ++ later) w ≡ some w')
        × (((seen w ≡ false) × (w' ≡ w))
            ⊎ ((seen w ≡ true) × First (t ∷ ts) (kill_process sh (pro_name p) w).1 w'))
  stop_run_ends t ts later w h = elim (Bool-cases (seen w)) [
    | inr f ↦ (w, (unfold stop_run kill_process in ground (arith, f)), inl (f, refl))
    | inl r ↦
        (let v = (kill_process sh (pro_name p) w).1 in
          let unseen : seen (after (t ∷ ts) v) ≡ false = elim h [
            | inl f ↦ (let bad : true ≡ false = sym r ∙ f in cc)
            | inr g ↦ g
          ] in
          let (w', e, f) = wait_stopped_ends t ts later v unseen in
          let killed : (kill_process sh (pro_name p) w).0 ≡ ok tt =
            (unfold kill_process in ground (arith, r)) in
          (w', (unfold stop_run in ground (arith, killed, e)), inr (r, f)))
  ]
