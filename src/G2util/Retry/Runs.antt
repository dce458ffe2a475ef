-- ===== src/G2util/Retry/Runs.antt =====
-- How often `RetryDoTimes` calls its function, and what it returns.
use gof.Base.{
  ℕ, zero, suc, ◌+◌, ◌≤◌, ◌<◌, ◌≡◌, refl, sym, ◌≢◌, ◌⊎◌, inl, inr, Option, none, some, List, [],
  ◌∷◌, ◌++◌, arith, leb, ◌==◌, Bool-cases, Option-cases,
}
use gof.Base.Int.{ℤ, pos, pos_part, ◌≤ℤ◌}
use gof.G2util.Retry.{clamp, Run, retry_loop, retry_do_times}

pub clamp_bounds :
    (lo hi x : ℤ)
    → lo ≤ℤ hi
    → (lo ≤ℤ clamp x lo hi) × (clamp x lo hi ≤ℤ hi) × (lo ≤ℤ x → x ≤ℤ hi → clamp x lo hi ≡ x)
unfolding clamp
clamp_bounds lo hi x h = (ground arith, ground arith, λ p q. ground arith)

Nat-split : (a i : ℕ) → a ≤ i → (i ≡ a) ⊎ (a + 1 ≤ i)
Nat-split a i h = elim (Bool-cases (i == a)) [
  | inl e ↦ inl (ground arith)
  | inr f ↦ inr (ground arith)
]

module _ {E : Type 0} (fn : ℕ → Option E) (times : ℕ) (seconds : ℤ) where
  -- What the run says of the calls from number `a` on: the last call succeeded or there is no other
  -- left, every call before it failed, the result is that of the last one.
  pub record Sound (a : ℕ) (r : Run E) : Type 0 where
    pub from : a ≤ r.calls
    pub bound : r.calls ≤ times
    pub last : r.result ≡ fn r.calls
    pub stop : (r.result ≡ none) ⊎ (r.calls ≡ times)
    pub failed : (i : ℕ) → a ≤ i → i < r.calls → fn i ≢ none

  succeeds :
      (a : ℕ) (slept : List ℤ)
      → fn a ≡ none
      → a ≤ times
      → Sound a (record { calls = a; sleeps = slept; result = none })
  succeeds a slept q h = record {
    from = omega arith;
    bound = h;
    last = sym q;
    stop = inl refl;
    failed = λ i p z. absurd (omega arith);
  }

  gives_up :
      (a : ℕ) (slept : List ℤ) (x : E)
      → fn a ≡ some x
      → a ≡ times
      → Sound a (record { calls = a; sleeps = slept; result = some x })
  gives_up a slept x q h = record {
    from = omega arith;
    bound = omega arith;
    last = sym q;
    stop = inr h;
    failed = λ i p z. absurd (omega arith);
  }

  goes_on : (a : ℕ) (x : E) (r : Run E) → fn a ≡ some x → Sound (a + 1) r → Sound a r
  goes_on a x r q S = record {
    from = omega (arith, S.from);
    bound = S.bound;
    last = S.last;
    stop = S.stop;
    failed = λ i p z. elim (Nat-split a i p) [ inl e ↦ (λ n. cc) | inr l ↦ S.failed i l z ];
  }

  retry_loop-Sound :
      (fuel a : ℕ) (slept : List ℤ)
      → fuel + a ≡ times + 1
      → 0 < fuel
      → Sound a (retry_loop fuel fn a times seconds slept)
  unfolding retry_loop
  retry_loop-Sound zero a slept e h = elim h [ ]
  retry_loop-Sound (suc fuel) a slept e h = elim (Option-cases (fn a)) [
    | inl q ↦ rw (q, retry_loop) (succeeds a slept q (omega arith))
    | inr (x, q) ↦ elim (Bool-cases (leb times a)) [
      | inl t ↦ rw (q, t, retry_loop) (gives_up a slept x q (ground (arith, t)))
      | inr f ↦
          (let rest =
              retry_loop-Sound fuel (a + 1) (slept ++ seconds ∷ []) (omega arith)
                (ground (arith, f)) in
            rw (q, f, retry_loop) (goes_on a x _ q rest))
    ]
  ]

-- How many calls a number of times allows: one if it is below, twenty if it is above, else itself.
pub record IsLimit (times : ℤ) (n : ℕ) : Type 0 where
  pub low : times ≤ℤ pos 1 → n ≡ 1
  pub between : pos 1 ≤ℤ times → times ≤ℤ pos 20 → pos n ≡ times
  pub high : pos 20 ≤ℤ times → n ≡ 20

clamp-IsLimit : (times : ℤ) → IsLimit times (pos_part (clamp times (pos 1) (pos 20)))
unfolding clamp
clamp-IsLimit times = record {
  low = λ h. ground (arith, h);
  between = λ h k. ground (arith, h, k);
  high = λ h. ground (arith, h);
}

-- `RetryDoTimes` calls its function at least once and at most as often as it is told, where a number
-- below 1 counts as 1 and one above 20 as 20; it stops at the first success, gives up only at that
-- number, every call before the last failed, and it returns the result of the last call.
pub retry_do_times-Sound :
    {E : Type 0} (times interval : ℤ) (fn : ℕ → Option E)
    → (limit : ℕ) × IsLimit times limit
      × Sound fn limit (clamp interval (pos 1) (pos 60)) 1 (retry_do_times times interval fn)
unfolding retry_do_times
retry_do_times-Sound times interval fn =
    let (lo, hi, same) = clamp_bounds (pos 1) (pos 20) times (omega arith) in
    (
      pos_part (clamp times (pos 1) (pos 20)),
      clamp-IsLimit times,
      retry_loop-Sound fn _ _ _ 1 [] (omega arith) (omega arith),
    )
