-- ===== src/G2db/AtomicTests.antt =====
-- Calls on two keys that interleave, with deletions between them.
use gof.G2cache.Backends.{ledis}
use gof.Base.{
  suc, ◌≤◌, ◌≡◌, refl, Bool, true, false, none, some, List, [], ◌∷◌, Text, codes, text_eq,
}
use gof.Base.{suc, ◌≤◌, ◌≡◌, refl, Bool, true, false, none, some, List, [], ◌∷◌, Text, codes}
use gof.Base.Dict.{Dict, get, put, remove}
use gof.Fault.{ok, err, plain, Action}
use gof.G2db.Cache.{is_not_found}
use gof.G2db.Cache.Atomic.{
  missed, fetched, broken, Calls, Event, locks, looks, loads, breaks, stores, clears, drops,
  release, hold, look, fetch, keep_fetched, drop_key, atomic_step, atomic_run, idle,
}
use gof.G2db.Cache.Atomic.Once.{count_key, loaded_once}
use gof.G2db.Cache.Atomic.Lost.{lock_lost}
use gof.G2db.Cache.Atomic.Progress.{Releases, remaining, lock_given_back}
use gof.G2db.RowTests.{memory, memory-IsStore}

-- a load that finds its row, and one that fails
abbrev row : Bool → Action (Dict Text) Text
row true w = (ok (codes "row"), w)
row false w = (err (plain (codes "down")), w)

row_apart : (f : Bool) (j : Text) (w : Dict Text) → memory.get j (row f w).1 ≡ memory.get j w
row_apart true j w = refl
row_apart false j w = refl

abbrev k1 : Text
k1 = codes "user::1"

abbrev k2 : Text
k2 = codes "user::2"

abbrev history : List (Event Bool)
history =
    locks k1
    ∷ looks k1
    ∷ locks k2
    ∷ drops k1
    ∷ loads k1 true
    ∷ looks k2
    ∷ stores k1
    ∷ loads k2 false
    ∷ locks k1
    ∷ looks k1
    ∷ clears k1
    ∷ locks k1
    ∷ looks k1
    ∷ loads k1 true
    ∷ []

abbrev reached : Calls (Dict Text)
reached = record {
  world = [];
  held = (k1, fetched (codes "row")) ∷ [];
  loaded_keys = k1 ∷ k1 ∷ [];
  deleted_keys = k1 ∷ k1 ∷ [];
  answers = (k1, ok (codes "row")) ∷ (k2, err (plain (codes "down"))) ∷ (k1, ok (codes "row")) ∷ [];
}

history_reaches : atomic_run memory row (idle []) history ≡ some reached
unfolding atomic_run atomic_step look fetch keep_fetched drop_key release hold is_not_found get put
    remove text_eq ledis
history_reaches = refl

-- the second call of a key waits for its lock
second_waits : atomic_run memory row (idle []) (locks k1 ∷ looks k1 ∷ locks k1 ∷ []) ≡ none
unfolding atomic_run atomic_step look fetch keep_fetched drop_key release hold is_not_found get put
    remove text_eq ledis
second_waits = refl

loaded_once_example : count_key k1 reached.loaded_keys ≤ suc (count_key k1 reached.deleted_keys)
loaded_once_example = loaded_once memory memory-IsStore row row_apart history k1 [] history_reaches

abbrev waiting : Calls (Dict Text)
waiting = record {
  world = [];
  held = (k1, missed) ∷ [];
  loaded_keys = [];
  deleted_keys = [];
  answers = [];
}

held_at : get k1 waiting.held ≡ some missed
unfolding get text_eq
held_at = refl

left_over :
    remaining memory row k1 true missed [] ≡ some (ok (codes "row"), put k1 (codes "row") [])
unfolding remaining ledis
left_over = refl

lock_given_back_example :
    Releases memory row k1 waiting (ok (codes "row"), put k1 (codes "row") []) 3
lock_given_back_example =
    lock_given_back memory row true k1 missed waiting (ok (codes "row"), put k1 (codes "row") [])
      held_at left_over

-- the load of the call panics, and then the key is deleted
abbrev crashed : Calls (Dict Text)
crashed = record {
  world = [];
  held = (k1, broken) ∷ [];
  loaded_keys = [];
  deleted_keys = [];
  answers = [];
}

abbrev swept : Calls (Dict Text)
swept = record crashed { deleted_keys = k1 ∷ [] }

crashes : atomic_step memory row waiting (breaks k1 false) ≡ some crashed
unfolding atomic_step get text_eq
crashes = refl

sweeps : atomic_run memory row crashed (drops k1 ∷ []) ≡ some swept
unfolding atomic_run ledis
sweeps = refl

lock_lost_example :
    (get k1 swept.held ≡ some broken) × (atomic_step memory row swept (locks k1) ≡ none)
lock_lost_example =
    lock_lost memory row k1 false (drops k1 ∷ []) waiting crashed swept crashes sweeps
