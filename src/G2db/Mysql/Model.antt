-- ===== src/G2db/Mysql/Model.antt =====
-- g2db/mysql.go: the base of the models, the engine of a `Mysql`, and `Update`, which gives the new bean back
-- from inside its transaction.
use gof.Base.{◌≡◌, inl, inr, Option, none, some, arith}
use gof.Base.Int.{ℤ, pos}
use gof.Fault.{Done, ok, err, Action, pure, ◌>>=◌, Result-cases}
use gof.G2db.Mysql.{Transactions, tx_callback, open_tx, settle}

-- `MyBase` with `MyBase1`; a nil time is none
pub record MyBase (T : Type 0) : Type 0 where
  pub id : ℤ
  pub created : Option T
  pub updated : Option T
  pub version : ℤ

-- `ClearColumns`: the id stays
unfoldable pub clear_columns : {T : Type 0} → MyBase T → MyBase T
clear_columns m = record m { version = pos 0; created = none; updated = none }

-- the engine of a `Mysql`, which is nil until it has dialled
pub record Connected (E : Type 0) : Type 0 where
  pub eg : Option E

-- `SetEngine`
unfoldable pub set_engine : {E : Type 0} → E → Connected E → Connected E
set_engine e m = record m { eg = some e }

-- `AfterShutdown`: an error of the closing is dropped
unfoldable pub mysql_after_shutdown :
    {W E : Type 0} → (E → Action W (Unit {0})) → Connected E → W → W
mysql_after_shutdown close m w = elim m.eg [ none ↦ w | some e ↦ (close e w).1 ]

-- `Migrate`, over `migrate`: its error ends the process, none
unfoldable pub run_migrate : {W : Type 0} → Action W (Unit {0}) → W → Option W
run_migrate migrate w = let (r, w') = migrate w in elim r [ err e ↦ none | ok _ ↦ some w' ]

-- `Insert`, over `Insert` of a session
unfoldable pub mysql_insert :
    {W B : Type 0} → Transactions W → (B → Action W B) → B → Action W (Unit {0})
unfolding tx_callback
mysql_insert x insert bean = tx_callback x (insert bean >>= λ _. pure tt)

-- what `fn` of `Update` has stored when it ends: the bean, unless it failed or never ran
unfoldable pub stored_bean : {W B : Type 0} → Transactions W → Action W B → W → Option B
stored_bean x write w = elim (x.begin w).0 [
  | err e ↦ none
  | ok _ ↦ elim (write (x.begin w).1).0 [ err e ↦ none | ok b ↦ some b ]
]

-- `Update`: the new bean and the error
unfoldable pub mysql_update :
    {W B : Type 0} → Transactions W → Action W B → W → (Option B × Done) × W
unfolding tx_callback stored_bean
mysql_update x write w =
    let (r, w') = tx_callback x (write >>= λ _. pure tt) w in ((stored_bean x write w, r), w')

-- An update that reports no error has its bean.
pub mysql_update_bean :
    {W B : Type 0} (x : Transactions W) (write : Action W B) (w : W)
    → (mysql_update x write w).0.1 ≡ ok tt
    → (b : B) × ((mysql_update x write w).0.0 ≡ some b)
mysql_update_bean x write w h = elim (Result-cases (x.begin w).0) [
  | inr (e, p) ↦ (unfold mysql_update open_tx in ground (arith, h, p))
  | inl (u, p) ↦ elim (Result-cases (write (x.begin w).1).0) [
    | inl (b, q) ↦ (b, (unfold mysql_update in ground (arith, p, q)))
    | inr (e, q) ↦ elim (Result-cases (x.rollback (write (x.begin w).1).1).0) [
      | inl (v, r) ↦ (unfold mysql_update open_tx settle in ground (arith, h, p, q, r))
      | inr (f, r) ↦ (unfold mysql_update open_tx settle in ground (arith, h, p, q, r))
    ]
  ]
]
