-- ===== src/G2util/Retry.antt =====
-- g2util/math.go `Clamp` and g2util/time.go `RetryDo`, `RetryDoTimes`.
pub mod Runs
use gof.Base.{ℕ, zero, suc, ◌+◌, Option, none, some, List, [], ◌∷◌, ◌++◌, leb, if◌then◌else◌}
use gof.Base.Int.{ℤ, pos, pos_part, ltb_int}

-- `Clamp` at int64
unfoldable pub clamp : ℤ → ℤ → ℤ → ℤ
clamp val min_val max_val =
    if ltb_int val min_val then min_val else if ltb_int max_val val then max_val else val

-- What a loop did: the calls of `fn`, the sleeps in between with their seconds, and the last result.
-- An attempt's result is nil, `none`, or an error.
pub record Run (E : Type 0) : Type 0 where
  pub calls : ℕ
  pub sleeps : List ℤ
  pub result : Option E

-- The loop of `RetryDoTimes`. `fn i` is the result of the i-th call, `a` the number of the next
-- one, `fuel` the calls that may still be made, of which there are at most `times - a + 1`.
unfoldable pub retry_loop : {E : Type 0} → ℕ → (ℕ → Option E) → ℕ → ℕ → ℤ → List ℤ → Run E
retry_loop zero fn a times seconds slept = record { calls = 0; sleeps = slept; result = none }
retry_loop (suc fuel) fn a times seconds slept =
    let again = retry_loop fuel fn (a + 1) times seconds (slept ++ seconds ∷ []) in
    elim (fn a) [
      | none ↦ record { calls = a; sleeps = slept; result = none }
      | some e ↦
          (if leb times a then record { calls = a; sleeps = slept; result = some e } else again)
    ]

-- `RetryDoTimes`
unfoldable pub retry_do_times : {E : Type 0} → ℤ → ℤ → (ℕ → Option E) → Run E
unfolding clamp retry_loop
retry_do_times times interval fn =
    let n = pos_part (clamp times (pos 1) (pos 20)) in
    retry_loop n fn 1 n (clamp interval (pos 1) (pos 60)) []

-- `RetryDo`
unfoldable pub retry_do : {E : Type 0} → (ℕ → Option E) → ℤ → Run E
unfolding retry_do_times
retry_do fn interval = retry_do_times (pos 10) interval fn
