-- ===== src/G2db/Mysql/Sync.antt =====
-- g2db/mysql.go `sync` and g2db/functions.go `initializeTables`: the tables are brought up to date, and
-- filled where they are empty. The session is a parameter.
pub mod Again
use gof.Base.{
  ℕ, zero, suc, ◌≡◌, Bool, true, false, Option, none, some, List, [], ◌∷◌, ◌++◌, map, if◌then◌else◌,
  Text, codes,
}
use gof.Base.Int.{ℤ, pos, negsuc}
use gof.Fault.{wrap, plain, err_text, ok, err, Action, Done, pure, ◌>>=◌, ◌>>◌}
use gof.G2db.Conditions.{Iteration, Naming, CompoundIndex}
use gof.G2db.Conditions.Index.{Sql, create_index}
use gof.G2db.Mysql.{Transactions, tx_callback}

-- the session, with the rows of beans `B`
pub record Ddl (W B : Type 0) : Type 0 where
  pub sql : Sql W
  pub sync2 : List B → Action W (Unit {0})
  pub count : B → Action W ℤ
  pub insert_all : List B → Action W (Unit {0})

-- a registered table, and the interfaces that its type has
pub record Table (W B : Type 0) : Type 0 where
  pub bean : B
  pub name : Text
  pub indexes : Option (List CompoundIndex)
  pub init_data : Option (List B)
  pub after_sync : Option (Action W (Unit {0}))

-- `fmt.Errorf("[kind] [table] error: %w", ...)`
unfoldable pub tagged : Text → Text → Done → Done
tagged kind table (ok u) = ok u
tagged kind table (err e) =
    err (wrap (codes "[" ++ (kind ++ (codes "] [" ++ (table ++ codes "] error: ")))) e [])

unfoldable pub is_positive : ℤ → Bool
is_positive (pos zero) = false
is_positive (pos (suc k)) = true
is_positive (negsuc k) = false

module _ {W B : Type 0} (d : Ddl W B) where
  -- `initializeTables` on an empty table; the error of the truncation is dropped
  unfoldable pub fill_table : Text → List B → Action W (Unit {0})
  unfolding err_text
  fill_table table beans w =
      let (_, w1) = d.sql.exec (codes "truncate table " ++ (table ++ codes ";")) w in
      let (r, w2) = d.insert_all beans w1 in
      elim r [
        | ok _ ↦ (ok tt, w2)
        | err e ↦
            (err (plain (codes "[InitData] [" ++ (table ++ (codes "] error: " ++ err_text e)))), w2)
      ]

  -- behind the count
  unfoldable pub fill_if_empty : Text → List B → ℤ → Action W (Unit {0})
  unfolding is_positive fill_table
  fill_if_empty table beans count = if is_positive count then pure tt else fill_table table beans

  -- `initializeTables`
  unfoldable pub initialize_tables : Text → B → List B → Action W (Unit {0})
  unfolding fill_if_empty
  initialize_tables table bean [] w = (ok tt, w)
  initialize_tables table bean (i ∷ is) w =
      let (r, w') = d.count bean w in
      elim r [
        | err e ↦ (err (wrap (codes "[InitData] [" ++ (table ++ codes "] Count error: ")) e []), w')
        | ok count ↦ fill_if_empty table (i ∷ is) count w'
      ]

  module _ (n : Naming) (it : Iteration) where
    -- the loop over a table's compound indexes, to each of which it hands the session
    unfoldable pub sync_indexes : Text → List CompoundIndex → Action W (Unit {0})
    unfolding create_index tagged
    sync_indexes table [] = pure tt
    sync_indexes table (c ∷ cs) = do
      (λ w.
          let (r, w') = create_index d.sql n it table c w in
          (tagged (codes "CompoundIndex") table r, w'))
      sync_indexes table cs

    unfoldable pub sync_data : Table W B → Action W (Unit {0})
    unfolding initialize_tables tagged
    sync_data t w = elim t.init_data [
      | none ↦ (ok tt, w)
      | some beans ↦
          (let (r, w') = initialize_tables t.name t.bean beans w in
            (tagged (codes "InitData") t.name r, w'))
    ]

    unfoldable pub sync_hook : Table W B → Action W (Unit {0})
    unfolding tagged
    sync_hook t w = elim t.after_sync [
      | none ↦ (ok tt, w)
      | some hook ↦ (let (r, w') = hook w in (tagged (codes "AfterSync") t.name r, w'))
    ]

    -- the body of the loop of `sync`
    unfoldable pub sync_table : Table W B → Action W (Unit {0})
    unfolding sync_indexes sync_data sync_hook
    sync_table t = do
      d.sql.exec (
          codes "ALTER TABLE `"
          ++ (t.name ++ codes "` CONVERT TO CHARACTER SET utf8mb4 COLLATE utf8mb4_bin;"))
      sync_indexes t.name (elim t.indexes [ none ↦ [] | some cs ↦ cs ])
      sync_data t
      sync_hook t

    unfoldable pub sync_tables : List (Table W B) → Action W (Unit {0})
    unfolding sync_table
    sync_tables [] = pure tt
    sync_tables (t ∷ ts) = do sync_table t; sync_tables ts

    -- the function that `sync` runs in a transaction
    unfoldable pub sync_all : List (Table W B) → Action W (Unit {0})
    unfolding sync_tables
    sync_all [] = pure tt
    sync_all (t ∷ ts) = do d.sync2 (map (λ (u : Table W B). u.bean) (t ∷ ts)); sync_tables (t ∷ ts)

    -- `sync`
    unfoldable pub sync : Transactions W → List (Table W B) → Action W (Unit {0})
    unfolding sync_all
    sync x ts = tx_callback x (sync_all ts)

  -- A count only reads, and a table into which rows were put is not empty.
  pub record IsCounting : Type 0 where
    pub count-reads : (bean : B) (w : W) → (d.count bean w).1 ≡ w
    pub count-inserted :
        (bean i : B) (is : List B) (w w' : W)
        → d.insert_all (i ∷ is) w ≡ (ok tt, w')
        → (k : ℕ) × ((d.count bean w').0 ≡ ok (pos (suc k)))
