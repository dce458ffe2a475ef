-- ===== src/G2db/Mysql/Sync/Again.antt =====
-- A synchronisation that is run again.
use gof.Base.{
  ℕ, zero, suc, ◌≡◌, refl, ap, ◌∙◌, inl, inr, true, List, [], ◌∷◌, ◌++◌, arith, Bool-cases, Text,
  codes,
}
use gof.Base.Int.{ℤ, pos, negsuc}
use gof.Fault.{ok, Result-cases}
use gof.G2db.Mysql.Sync.{Ddl, IsCounting, fill_table, fill_if_empty, initialize_tables, is_positive}

is_positive-suc : (count : ℤ) → is_positive count ≡ true → (k : ℕ) × (count ≡ pos (suc k))
unfolding is_positive
is_positive-suc (pos zero) h = cc
is_positive-suc (pos (suc k)) h = (k, refl)
is_positive-suc (negsuc k) h = cc

module _ {W B : Type 0} (d : Ddl W B) where
  fill_table_inserted :
      (table : Text) (beans : List B) (w w' : W)
      → fill_table d table beans w ≡ (ok tt, w')
      → (v : W) × (d.insert_all beans v ≡ (ok tt, w'))
  fill_table_inserted table beans w w' h =
      let v = (d.sql.exec (codes "truncate table " ++ (table ++ codes ";")) w).1 in
      (
        v,
        elim (Result-cases (d.insert_all beans v).0) [
          | inl (u, q) ↦ (unfold fill_table in ground (arith, h, q))
          | inr (e, q) ↦ (unfold fill_table in ground (arith, h, q))
        ],
      )

  module _ (laws : IsCounting d) where
    pub initialize_tables_kept :
        (table : Text) (bean : B) (beans : List B) (k : ℕ) (w : W)
        → (d.count bean w).0 ≡ ok (pos (suc k))
        → initialize_tables d table bean beans w ≡ (ok tt, w)
    unfolding initialize_tables fill_if_empty is_positive
    initialize_tables_kept table bean [] k w h = refl
    initialize_tables_kept table bean (i ∷ is) k w h = ground (arith, h, laws.count-reads bean w)

    -- Where a count only reads and a table is not empty once rows were put into it: a table that
    -- was initialised is not initialised again, and whatever was there stays.
    pub initialize_tables_again :
        (table : Text) (bean : B) (beans : List B) (w w' : W)
        → initialize_tables d table bean beans w ≡ (ok tt, w')
        → initialize_tables d table bean beans w' ≡ (ok tt, w')
    initialize_tables_again table bean [] w w' h = (unfold initialize_tables in refl)
    initialize_tables_again table bean (i ∷ is) w w' h =
        let reads = laws.count-reads bean w in
        elim (Result-cases (d.count bean w).0) [
          | inr (e, q) ↦ (unfold initialize_tables in ground (arith, h, q))
          | inl (count, q) ↦ elim (Bool-cases (is_positive count)) [
            | inl p ↦
                (let (k, f) = is_positive-suc count p in
                  let kept = initialize_tables_kept table bean (i ∷ is) k w (q ∙ ap ok f) in
                  ground (arith, kept, h))
            | inr p ↦
                (let filled : fill_table d table (i ∷ is) w ≡ (ok tt, w') =
                    (unfold initialize_tables fill_if_empty in ground (arith, h, q, p, reads)) in
                  let (v, inserted) = fill_table_inserted table (i ∷ is) w w' filled in
                  let (k, f) = laws.count-inserted bean i is v w' inserted in
                  initialize_tables_kept table bean (i ∷ is) k w' f)
          ]
        ]
