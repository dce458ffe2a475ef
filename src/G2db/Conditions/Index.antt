-- ===== src/G2db/Conditions/Index.antt =====
-- g2db/mysql.go `CompoundIndex.execCreate`: the creation of a compound index. The session is a
-- parameter, and so is the order in which the columns are met.
use gof.Base.{
  ℕ, zero, suc, ◌≡◌, inl, inr, Bool, Option, none, some, List, [], ◌∷◌, ◌++◌, map, arith, ltb,
  if◌then◌else◌, length, Text, codes,
}
use gof.Fault.{wrap, ok, err, Action, Done, pure, Result-cases}
use gof.G2db.Conditions.{Iteration, Naming, CompoundIndex, Value}

-- The session: how many rows a query gives, and a statement.
pub record Sql (W : Type 0) : Type 0 where
  pub query : Text → Action W ℕ
  pub exec : Text → Action W (Unit {0})

-- `strings.Join`
unfoldable pub join : Text → List Text → Text
join sep [] = []
join sep (s ∷ []) = s
join sep (s ∷ t ∷ ts) = s ++ (sep ++ join sep (t ∷ ts))

-- `_indexName`
unfoldable pub index_name : Bool → Text → List Text → Text
unfolding join
index_name unique table cols =
    (if unique then codes "CUK" else codes "CIX")
    ++ (codes "_" ++ (table ++ (codes "_" ++ join (codes "_") cols)))

-- the two templates
unfoldable pub show_index : Bool → Text → List Text → Text
unfolding index_name
show_index unique table cols =
    codes "SHOW INDEX FROM "
    ++ (table ++ (codes " WHERE Key_name = '" ++ (index_name unique table cols ++ codes "'")))

unfoldable pub add_index : Bool → Text → List Text → Text
unfolding index_name join
add_index unique table cols =
    codes "ALTER TABLE "
    ++ (table
        ++ (codes " ADD "
            ++ ((if unique then codes "UNIQUE " else [])
                ++ (codes "INDEX "
                    ++ (index_name unique table cols
                        ++ (codes " (" ++ (join (codes ",") cols ++ codes ")")))))))

module _ {W : Type 0} (x : Sql W) where
  -- behind the query
  unfoldable pub add_missing : Bool → Text → List Text → ℕ → Action W (Unit {0})
  unfolding add_index
  add_missing unique table cols found =
      if ltb 0 found then pure tt else x.exec (add_index unique table cols)

  -- `execCreate` with the names of its columns
  unfoldable pub create_named : Bool → Text → List Text → Action W (Unit {0})
  unfolding show_index add_missing
  create_named unique table cols w =
      let (r, w') = x.query (show_index unique table cols) w in
      elim r [
        | err e ↦
            (err (wrap (codes "查询复合索引失败: ") e (codes ",\n" ++ show_index unique table cols)), w')
        | ok found ↦ add_missing unique table cols found w'
      ]

  -- `execCreate` behind its first check; one column makes no index
  unfoldable pub create_index : Naming → Iteration → Text → CompoundIndex → Action W (Unit {0})
  unfolding create_named
  create_index n it table c =
      let cols = map (λ (kv : Text × Value). n.field_name kv.0) (it.range_columns c.columns) in
      if ltb (length cols) 2 then pure tt else create_named c.unique table cols

-- `execCreate`: without a session it panics
unfoldable pub exec_create :
    {W : Type 0}
    → Option (Sql W)
    → Naming
    → Iteration
    → Text
    → CompoundIndex
    → W
    → Option (Done × W)
unfolding create_index
exec_create none n it table c w = none
exec_create (some x) n it table c w = some (create_index x n it table c w)

-- A query only reads, and finds an index that was just added.
pub record IsSql {W : Type 0} (x : Sql W) : Type 0 where
  pub query-reads : (sql : Text) (w : W) → (x.query sql w).1 ≡ w
  pub query-added :
      (unique : Bool) (table : Text) (cols : List Text) (w w' : W)
      → x.exec (add_index unique table cols) w ≡ (ok tt, w')
      → (k : ℕ) × ((x.query (show_index unique table cols) w').0 ≡ ok (suc k))

module _ {W : Type 0} (x : Sql W) (laws : IsSql x) where
  found_again :
      (unique : Bool) (table : Text) (cols : List Text) (k : ℕ) (w : W)
      → (x.query (show_index unique table cols) w).0 ≡ ok (suc k)
      → create_named x unique table cols w ≡ (ok tt, w)
  unfolding create_named add_missing
  found_again unique table cols k w h =
      ground (arith, h, laws.query-reads (show_index unique table cols) w)

  -- What was created is there, and what was there is left alone.
  named_again :
      (unique : Bool) (table : Text) (cols : List Text) (w w' : W)
      → create_named x unique table cols w ≡ (ok tt, w')
      → create_named x unique table cols w' ≡ (ok tt, w')
  named_again unique table cols w w' h =
      let reads = laws.query-reads (show_index unique table cols) w in
      elim (Result-cases (x.query (show_index unique table cols) w).0) [
        | inr (e, q) ↦ (unfold create_named in ground (arith, h, q))
        | inl (zero, q) ↦
            (let added : x.exec (add_index unique table cols) w ≡ (ok tt, w') =
                (unfold create_named add_missing in ground (arith, h, q, reads)) in
              let (k, f) = laws.query-added unique table cols w w' added in
              found_again unique table cols k w' f)
        | inl (suc k, q) ↦ ground (arith, found_again unique table cols k w q, h)
      ]

  -- An index that was created in one order of its columns is not created again in the same order.
  pub create_index_again :
      (n : Naming) (it : Iteration) (table : Text) (c : CompoundIndex) (w w' : W)
      → create_index x n it table c w ≡ (ok tt, w')
      → create_index x n it table c w' ≡ (ok tt, w')
  unfolding create_index
  create_index_again n it table c w w' h =
      let cols = map (λ (kv : Text × Value). n.field_name kv.0) (it.range_columns c.columns) in
      ground (arith, h, named_again c.unique table cols w w')
