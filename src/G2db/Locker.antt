-- ===== src/G2db/Locker.antt =====
-- g2db/atomic.go: a lock for each key, made when it is first asked for. A lock is named by its place among
-- those that were made; `Atomic` of g2db/cache.go holds the lock of its key around a whole call.
use gof.Base.{
  ℕ, suc, ◌<◌, ◌≡◌, inl, inr, none, some, ◌++◌, arith, Option-cases, Text, codes, text_eq_iff,
}
use gof.Base.Dict.{Dict, get, put, get-put, get-put_self}

-- `lock`, with the number of locks that were made
pub record Locker : Type 0 where
  pub mp : Dict ℕ
  pub made : ℕ

-- `Load`
unfoldable pub load_lock : Text → Locker → ℕ × Locker
load_lock key l = elim (get key l.mp) [
  | some m ↦ (m, l)
  | none ↦ (l.made, record { mp = put key l.made l.mp; made = suc l.made })
]

-- the name under which `Atomic` asks for the lock of a key
unfoldable pub atomic_name : Text → Text
atomic_name key = codes "cacheMem:Atomic:" ++ key

-- Every lock was made, and no two keys have one lock.
pub record IsLocker (l : Locker) : Type 0 where
  pub lt_made : (k : Text) (m : ℕ) → get k l.mp ≡ some m → m < l.made
  pub apart : (j k : Text) (m : ℕ) → get j l.mp ≡ some m → get k l.mp ≡ some m → j ≡ k

pub load_lock-IsLocker : (key : Text) (l : Locker) → IsLocker l → IsLocker (load_lock key l).1
load_lock-IsLocker key l h = elim (Option-cases (get key l.mp)) [
  | inr (m, e) ↦ (unfold load_lock in rw (e, load_lock) h)
  | inl e ↦
      (unfold load_lock in
        rw (e, load_lock)
          (record {
            lt_made = λ k m p. ground (arith, p, get-put key k l.made l.mp, h.lt_made k m);
            apart = λ j k m p q. ground (
              arith,
              p,
              q,
              get-put key j l.made l.mp,
              get-put key k l.made l.mp,
              text_eq_iff key j,
              text_eq_iff key k,
              h.lt_made j m,
              h.lt_made k m,
              h.apart j k m,
            );
          }))
]

-- A key has one lock: asked for again, it is the same, and nothing is made.
pub load_lock_again :
    (key : Text) (l : Locker)
    → load_lock key (load_lock key l).1 ≡ ((load_lock key l).0, (load_lock key l).1)
load_lock_again key l = elim (Option-cases (get key l.mp)) [
  | inr (m, e) ↦ (unfold load_lock in ground (arith, e))
  | inl e ↦ (unfold load_lock in ground (arith, e, get-put_self key l.made l.mp))
]
