-- ===== src/G2db/Session.antt =====
-- g2db/session.go: writes of one bean in a transaction, with the hooks of its type around them.
pub mod Order
use gof.Base.{ℕ, Bool, false, Option, none, some, List, [], ◌∷◌, ◌==◌, if◌then◌else◌, Text, codes}
use gof.Fault.{plain, Action, pure, raise, lift, ◌>>=◌, ◌>>◌}
use gof.Base.Dict.{Dict}
use gof.G2util.Maps.{Json, copy_bean, merge_beans, merge_to_bean}
use gof.G2cache.Store.{Store}
use gof.G2db.Mysql.{Beans, Transactions, cache_get, del_cache, tx_callback}

-- The rows that a session writes; an insertion sets fields of the bean, and the numbers count the
-- rows that were changed. A row is chosen by a condition, and an update with no columns writes all.
pub record Rows (W B : Type 0) : Type 0 where
  pub insert_one : B → Action W (ℕ × B)
  pub update : Text → List Text → B → Action W ℕ
  pub delete : Text → B → Action W (Unit {0})
  pub requery : Text → B → Action W B

-- the interfaces of g2db/interface.go that the bean's type has; a hook may change the bean
pub record Hooks (W B : Type 0) : Type 0 where
  pub before_insert : Option (B → Action W B)
  pub after_insert : Option (B → Action W B)
  pub before_update : Option (B → Action W B)
  pub after_update : Option (B → Action W B)
  pub before_delete : Option (B → Action W B)
  pub after_delete : Option (B → Action W B)

-- an argument of `Update`: fields to merge as a map, the columns to write, whether to query
-- afterwards, or a value of another type
pub data Param (V : Type 0) : Type 0 where
  fields : Dict V → Param V
  cols : List Text → Param V
  query_after : Bool → Param V
  ignored : Param V

unfoldable pub run_hook : {W B : Type 0} → Option (B → Action W B) → B → Action W B
run_hook none bean = pure bean
run_hook (some hook) bean = hook bean

module _ {W B : Type 0} (b : Beans W B) (rows : Rows W B) (hooks : Hooks W B)
    (publish : List Text → Action W (Unit {0})) where
  -- `Insert` behind the first hook and the row
  unfoldable pub inserted : ℕ × B → Action W B
  unfolding del_cache run_hook
  inserted (count, bean) =
      if count == 0
      then raise (plain (codes "数据写入失败"))
      else (do del_cache b publish bean; run_hook hooks.after_insert bean)

  -- `Insert`: the bean that it leaves
  unfoldable pub insert : B → Action W B
  unfolding inserted run_hook
  insert bean = do
    ready ← run_hook hooks.before_insert bean
    written ← rows.insert_one ready
    inserted written

  -- `Delete` of the row that the bean's first condition chooses
  unfoldable pub delete_row : Store W → Text → B → Action W B
  unfolding cache_get del_cache run_hook
  delete_row s query bean = do
    found ← cache_get b s bean
    ready ← run_hook hooks.before_delete found
    rows.delete query ready
    del_cache b publish ready
    run_hook hooks.after_delete ready

  -- `Delete`; a bean without a condition is left alone
  unfoldable pub delete : Store W → B → Action W B
  unfolding delete_row
  delete s bean = elim (b.values bean) [ [] ↦ pure bean | query ∷ qs ↦ delete_row s query bean ]

  -- `Update` behind the row; `after` is whether to query
  unfoldable pub updated : Bool → Text → B → ℕ → Action W B
  unfolding del_cache run_hook
  updated after query bean count = if count == 0 then raise (plain (codes "未更新数据")) else (do
    del_cache b publish bean
    done ← run_hook hooks.after_update bean
    if after then rows.requery query done else pure done)

  -- `Update` from the conditions on
  unfoldable pub update_row : List Text → Bool → B → Action W B
  unfolding updated run_hook
  update_row columns after bean = elim (b.values bean) [
    | [] ↦ pure bean
    | query ∷ qs ↦ do
      ready ← run_hook hooks.before_update bean
      count ← rows.update query columns ready
      updated after query ready count
  ]

  module _ {V : Type 0} (j : Json B V) where
    -- the loop over the arguments, and then `Update` from the conditions on
    unfoldable pub apply_params : List (Param V) → List Text → Bool → B → Action W B
    unfolding update_row merge_to_bean
    apply_params [] columns after bean = update_row columns after bean
    apply_params (fields f ∷ ps) columns after bean = do
      merged ← lift (merge_to_bean j f bean)
      apply_params ps columns after merged
    apply_params (cols cs ∷ ps) columns after bean = apply_params ps cs after bean
    apply_params (query_after q ∷ ps) columns after bean = apply_params ps columns q bean
    apply_params (ignored ∷ ps) columns after bean = apply_params ps columns after bean

    -- `Update`: the new bean
    unfoldable pub update : Store W → B → List (Param V) → Action W B
    unfolding apply_params cache_get copy_bean merge_beans
    update s bean params = do
      copied ← lift (copy_bean j bean)
      found ← cache_get b s copied
      merged ← lift (merge_beans j found bean)
      apply_params params [] false merged

-- `Mysql.Insert`, `Mysql.Delete`, and the transaction of `Mysql.Update`
unfoldable pub in_tx : {W B : Type 0} → Transactions W → Action W B → Action W (Unit {0})
unfolding tx_callback
in_tx x write = tx_callback x (write >>= λ _. pure tt)
