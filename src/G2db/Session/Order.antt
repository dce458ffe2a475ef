-- ===== src/G2db/Session/Order.antt =====
-- What a write does when a step of it fails.
use gof.Base.{ℕ, ◌≡◌, inl, inr, false, List, [], ◌∷◌, arith, ◌==◌, if◌then◌else◌, Text, codes}
use gof.Fault.{Err, plain, ok, err, Action, pure, ◌>>=◌, Result-cases}
use gof.G2util.Maps.{Json, copy_bean, merge_beans}
use gof.G2cache.Store.{Store}
use gof.G2db.Mysql.{Beans, cache_get, del_cache}
use gof.G2db.Session.{
  Rows, Hooks, run_hook, inserted, insert, delete_row, delete, updated, update_row, apply_params,
  update, cols,
}

module _ {W B : Type 0} (b : Beans W B) (rows : Rows W B) (hooks : Hooks W B)
    (publish : List Text → Action W (Unit {0})) where
  -- A deletion of a bean that the read does not find ends with the error of the read: no hook runs, no row
  -- is deleted and nothing is published.
  pub delete_missing :
      (s : Store W) (bean : B) (query : Text) (qs : List Text) (w w' : W) (e : Err)
      → b.values bean ≡ query ∷ qs
      → cache_get b s bean w ≡ (err e, w')
      → delete b rows hooks publish s bean w ≡ (err e, w')
  unfolding delete delete_row
  delete_missing s bean query qs w w' e v h = rw (v, delete) (ground (arith, h))

  -- An insertion that succeeds has written a row and then published the keys of the bean as it was
  -- written, before the last hook ran; nothing is published if no row was written.
  pub insert_publishes :
      (bean ready written : B) (w w1 w2 w3 : W) (count : ℕ)
      → run_hook hooks.before_insert bean w ≡ (ok ready, w1)
      → rows.insert_one ready w1 ≡ (ok (count, written), w2)
      → del_cache b publish written w2 ≡ (ok tt, w3)
      → insert b rows hooks publish bean w ≡ (
          if count == 0
          then (err (plain (codes "数据写入失败")), w2)
          else run_hook hooks.after_insert written w3)
  unfolding insert inserted
  insert_publishes bean ready written w w1 w2 w3 count h i d = ground (arith, h, i, d)

  then_pure : (m : Action W B) (w : W) → (m >>= pure) w ≡ m w
  then_pure m w = elim (Result-cases (m w).0) [
    | inl (a, e) ↦ ground (arith, e)
    | inr (x, e) ↦ ground (arith, e)
  ]

  updated_run :
      (ready : B) (query : Text) (w3 w4 : W) (count : ℕ)
      → del_cache b publish ready w3 ≡ (ok tt, w4)
      → updated b rows hooks publish false query ready count w3 ≡ (
          if count == 0
          then (err (plain (codes "未更新数据")), w3)
          else run_hook hooks.after_update ready w4)
  unfolding updated
  updated_run ready query w3 w4 count hd =
      ground (arith, hd, then_pure (run_hook hooks.after_update ready) w4)

  update_row_run :
      (cs : List Text) (merged ready : B) (query : Text) (qs : List Text) (w1 w2 w3 w4 : W)
      (count : ℕ)
      → b.values merged ≡ query ∷ qs
      → run_hook hooks.before_update merged w1 ≡ (ok ready, w2)
      → rows.update query cs ready w2 ≡ (ok count, w3)
      → del_cache b publish ready w3 ≡ (ok tt, w4)
      → update_row b rows hooks publish cs false merged w1 ≡ (
          if count == 0
          then (err (plain (codes "未更新数据")), w3)
          else run_hook hooks.after_update ready w4)
  unfolding update_row run_hook
  update_row_run cs merged ready query qs w1 w2 w3 w4 count hv hb hu hd =
      let done = updated_run ready query w3 w4 count hd in
      rw (hv, update_row) (ground (arith, hb, hu, done))

  -- If the reads, the merge and the hook before it succeed, an update with columns writes them in
  -- the row of the merged bean's first condition; without a changed row it fails there, with
  -- nothing published, and otherwise the keys are published, the last hook runs, and there is no
  -- query afterwards.
  pub update_columns :
      {V : Type 0} (j : Json B V) (s : Store W) (bean copied found merged ready : B)
      (cs qs : List Text) (query : Text) (w w1 w2 w3 w4 : W) (count : ℕ)
      → copy_bean j bean ≡ ok copied
      → cache_get b s copied w ≡ (ok found, w1)
      → merge_beans j found bean ≡ ok merged
      → b.values merged ≡ query ∷ qs
      → run_hook hooks.before_update merged w1 ≡ (ok ready, w2)
      → rows.update query cs ready w2 ≡ (ok count, w3)
      → del_cache b publish ready w3 ≡ (ok tt, w4)
      → update b rows hooks publish j s bean (cols cs ∷ []) w ≡ (
          if count == 0
          then (err (plain (codes "未更新数据")), w3)
          else run_hook hooks.after_update ready w4)
  unfolding update apply_params
  update_columns j s bean copied found merged ready cs qs query w w1 w2 w3 w4 count hc hg hm hv hb
        hu hd =
      rw (hc, hg, hm) (update_row_run cs merged ready query qs w1 w2 w3 w4 count hv hb hu hd)
