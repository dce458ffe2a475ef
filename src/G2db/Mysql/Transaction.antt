-- ===== src/G2db/Mysql/Transaction.antt =====
-- What a transaction leaves behind.
use gof.Base.{◌≡◌, inl, inr, Bool, true, arith}
use gof.Fault.{Err, ok, err, Action, Result-cases}
use gof.G2db.Mysql.{Transactions, settle, open_tx, tx_callback}

-- What a database promises of transactions; `seen` is what other sessions see, `in_tx` whether the
-- session has a transaction open. A begin that succeeds opens one; of an open transaction only a commit
-- that succeeds is seen.
pub record IsTransactional {W D : Type 0} (x : Transactions W) (seen : W → D) (in_tx : W → Bool)
    : Type 0 where
  pub begins : (w : W) → (x.begin w).0 ≡ ok tt → in_tx (x.begin w).1 ≡ true
  pub seen-begin : (w : W) → seen (x.begin w).1 ≡ seen w
  pub seen-rollback : (w : W) → in_tx w ≡ true → seen (x.rollback w).1 ≡ seen w
  pub seen-close : (w : W) → seen (x.close w).1 ≡ seen w
  pub seen-commit :
      (w : W) (e : Err) → in_tx w ≡ true → (x.commit w).0 ≡ err e → seen (x.commit w).1 ≡ seen w

module _ {W D : Type 0} (x : Transactions W) (seen : W → D) (in_tx : W → Bool)
    (laws : IsTransactional x seen in_tx) where
  -- If `TXCallback` succeeds, so did its function, and the last change was the commit.
  pub tx_callback_committed :
      (fn : Action W (Unit {0})) (w : W)
      → (tx_callback x fn w).0 ≡ ok tt
      → ((fn (x.begin w).1).0 ≡ ok tt)
        × ((x.commit (fn (x.begin w).1).1).0 ≡ ok tt)
        × (seen (tx_callback x fn w).1 ≡ seen (x.commit (fn (x.begin w).1).1).1)
  tx_callback_committed fn w h =
      let w1 = (x.begin w).1 in
      let ran = fn w1 in
      elim (Result-cases (x.begin w).0) [
        | inr (f, q) ↦ (unfold tx_callback open_tx in ground (arith, q, h))
        | inl (u, q) ↦ elim (Result-cases ran.0) [
          | inr (f, z) ↦ elim (Result-cases (x.rollback ran.1).0) [
            | inl (v, y) ↦ (unfold tx_callback open_tx settle in ground (arith, q, z, y, h))
            | inr (g, y) ↦ (unfold tx_callback open_tx settle in ground (arith, q, z, y, h))
          ]
          | inl (v, z) ↦ elim (Result-cases (x.commit ran.1).0) [
            | inr (g, y) ↦ (unfold tx_callback open_tx settle in ground (arith, q, z, y, h))
            | inl (t, y) ↦
                (let closed = laws.seen-close (x.commit ran.1).1 in
                  (z, y, (unfold tx_callback open_tx settle in ground (arith, q, z, y, closed))))
          ]
        ]
      ]
