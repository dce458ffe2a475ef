-- ===== src/G2cmd/Tests.antt =====
-- A program that ends at the second tick after it was signalled.
use gof.Base.{
  ℕ, ◌-◌, ◌≡◌, refl, ◌⊎◌, inr, Bool, true, false, none, some, [], ◌∷◌, ltb, if◌then◌else◌, codes,
}
use gof.G2util.Exec.{Shell, process_is_running, kill_process}
use gof.G2cmd.{Place, pro_name, start_run, stop_run}
use gof.G2cmd.Stop.{after, First, stop_run_ends}

-- how many ticks the program still runs, and whether it was signalled
abbrev World : Type 0
World = ℕ × Bool

abbrev shell : Shell World
shell = record {
  output = λ c w. if ltb 0 w.0 then codes "41\n" else codes "\n";
  run = λ c w. (w.0, true);
  start = λ c w. (2, false);
}

abbrev tick : World → World
tick w = if w.1 then (w.0 - 1, w.1) else w

abbrev place : Place
place = record { root_path = codes "/app"; arg0 = codes "./bin/gof" }

named : pro_name place ≡ codes "gof -s start"
unfolding pro_name
named = refl

-- a second start does nothing
started_twice : start_run shell place true none (λ w. w) (2, false) ≡ (2, false)
unfolding start_run
started_twice = refl

gone :
    process_is_running shell
      (pro_name place)
      (after (tick ∷ tick ∷ []) (kill_process shell (pro_name place) (2, false)).1)
    ≡ false
unfolding process_is_running after kill_process
gone = refl

stop_run_ends_example :
    (w' : World) × (stop_run shell place (tick ∷ tick ∷ tick ∷ []) (2, false) ≡ some w')
    × (((process_is_running shell (pro_name place) (2, false) ≡ false) × (w' ≡ (2, false)))
        ⊎ ((process_is_running shell (pro_name place) (2, false) ≡ true)
            × First shell place
                (tick ∷ tick ∷ [])
                (kill_process shell (pro_name place) (2, false)).1
                w'))
stop_run_ends_example = stop_run_ends shell place tick (tick ∷ []) (tick ∷ []) (2, false) (inr gone)
