-- ===== src/G2util/Tests.antt =====
-- Runs of the utilities on concrete inputs.
use gof.Base.{
  ℕ, ◌≡◌, refl, ◌≢◌, true, false, Option, none, some, List, [], ◌∷◌, ◌++◌, arith, ltb,
  if◌then◌else◌, Text, codes,
}
use gof.Base.Int.{pos, negsuc}
use gof.G2util.Retry.{clamp, retry_do_times}
use gof.G2util.Retry.Runs.{IsLimit, Sound, retry_do_times-Sound}
use gof.G2util.BackFile.{InnerIo, Disk, calm, write, new_io}
use gof.G2util.BackFile.Keeps.{logged, logged-write}
use gof.G2util.BackFile.Sizes.{IsBounded, write-IsBounded}
use gof.G2util.Graceful.{Process, Graceful}
use gof.G2util.GoPool.{Event, taken, refused, panics, run, new_pool}

-- a call that succeeds at the third attempt
abbrev third_time : ℕ → Option Text
third_time n = if ltb n 3 then some (codes "busy") else none

retry_do_times-Sound_example :
    (limit : ℕ) × IsLimit (pos 50) limit
    × Sound third_time limit
        (clamp (negsuc 0) (pos 1) (pos 60))
        1
        (retry_do_times (pos 50) (negsuc 0) third_time)
retry_do_times-Sound_example = retry_do_times-Sound (pos 50) (negsuc 0) third_time

retry_do_times_three : (retry_do_times (pos 50) (negsuc 0) third_time).calls ≡ 3
unfolding retry_do_times
retry_do_times_three = refl

abbrev small_log : InnerIo
small_log = new_io (codes "old") (record { file_max_size = 6; buffer_size = 4 })

abbrev no_copies : Disk
no_copies = record {
  write_error = none;
  copy_error = some (none, codes "disk full");
  truncates = true;
}

no_partial : (n : ℕ) (e : Text) → no_copies.copy_error ≢ some (some n, e)
no_partial n e = λ h. cc

-- a copy that breaks off leaves its part beside the whole file
partial_left :
    (write
      (record no_copies { copy_error = some (some 3, codes "disk full") })
      (codes "entry")
      small_log).1.1.backups
    ≡ codes "old" ∷ []
unfolding write new_io
partial_left = refl

logged-write_example :
    logged (write no_copies (codes "entry") small_log).1.1
    ≡ logged small_log ++ (if small_log.closed then [] else codes "entry")
unfolding new_io
logged-write_example =
    logged-write no_copies (codes "entry") small_log
      (record { writes = refl; copies = no_partial; truncates = refl })

write_backs_up : (write calm (codes "entry") small_log).1.1.backups ≡ codes "oldentry" ∷ []
unfolding write new_io
write_backs_up = refl

small_log-IsBounded : IsBounded small_log
unfolding new_io
small_log-IsBounded = record { buffer = omega arith; file = omega arith }

write-IsBounded_example : IsBounded (write calm (codes "entry") small_log).1.1
unfolding new_io
write-IsBounded_example =
    write-IsBounded (codes "entry") small_log (omega arith) (omega arith) small_log-IsBounded

abbrev three_processes : List Process
three_processes =
    record { id = 1; is_writer = true }
    ∷ record { id = 2; is_writer = false }
    ∷ record { id = 3; is_writer = false }
    ∷ []

abbrev one_server : Graceful
one_server = record { process_list = three_processes; srv_list = codes ":80" ∷ [] }

abbrev busy : List Event
busy = taken ∷ taken ∷ refused ∷ panics ∷ []

busy_pool : run new_pool busy ≡ some (record { size = 3; running = 1; wait = 0 })
unfolding run
busy_pool = refl
