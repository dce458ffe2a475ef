-- ===== src/G2db/Mysql.antt =====
-- g2db/mysql.go: transactions, the registered tables, and reads of rows through the cache. The
-- driver is xorm, a parameter; g2db/functions.go `HasError`.
pub mod Transaction
pub mod Rows
pub mod Sync
pub mod Engine
pub mod Model
use gof.Base.{
  Bool, true, false, Option, none, some, List, [], ◌∷◌, ◌++◌, map, if◌then◌else◌, any, Text, codes,
  text_eq,
}
use gof.Fault.{
  Err, redis_nil, mysql_not_found, wrap, plain, err_text, Result, ok, err, Action, Done, pure, lift,
  ◌>>=◌, ◌>>◌,
}
use gof.G2cache.Store.{Store}
use gof.G2db.Cache.{cache_null, get_or_store}

-- a session's transaction
pub record Transactions (W : Type 0) : Type 0 where
  pub begin : Action W (Unit {0})
  pub commit : Action W (Unit {0})
  pub rollback : Action W (Unit {0})
  pub close : Action W (Unit {0})

-- What is read and written of beans of type `B`: the table's name, the conditions of
-- `cacheBind.Values`, the row for a condition, and JSON, which is read into the bean.
pub record Beans (W B : Type 0) : Type 0 where
  pub table_name : B → Text
  pub values : B → List Text
  pub get_row : Text → B → Action W (Option B)
  pub marshal : B → Result Text
  pub unmarshal : Text → B → Result B

module _ {W : Type 0} (x : Transactions W) where
  -- what `TXCallback` does with the result of `fn`
  unfoldable pub settle : Done → Action W (Unit {0})
  unfolding err_text
  settle (err e) w =
      let (r, w') = x.rollback w in
      elim r [
        | err f ↦ (err (plain (err_text e ++ (codes ",tx Rollback:" ++ err_text f))), w')
        | ok _ ↦ (err e, w')
      ]
  settle (ok _) w =
      let (r, w') = x.commit w in
      elim r [ err f ↦ (err (plain (codes "tx Commit:" ++ err_text f)), w') | ok _ ↦ (ok tt, w') ]

  -- `TXCallback` below the deferred close
  unfoldable pub open_tx : Action W (Unit {0}) → Action W (Unit {0})
  unfolding settle
  open_tx fn w =
      let (r, w1) = x.begin w in
      let (res, w2) = fn w1 in
      let settled = settle res w2 in elim r [ err e ↦ (err e, w1) | ok _ ↦ settled ]

  -- `TXCallback`: the session is closed in any case, and an error of that is dropped
  unfoldable pub tx_callback : Action W (Unit {0}) → Action W (Unit {0})
  unfolding open_tx
  tx_callback fn w = let (r, w') = open_tx fn w in (r, (x.close w').1)

-- `_f1hasTable`
unfoldable pub has_table : {B : Type 0} → (B → Text) → B → List B → Bool
has_table name tb ts = any (λ t. text_eq (name t) (name tb)) ts

-- `TableRegister`: the first table that is there already ends the loop
unfoldable pub table_register : {B : Type 0} → (B → Text) → List B → List B → List B
unfolding has_table
table_register name [] ts = ts
table_register name (b ∷ bs) ts =
    let rest = table_register name bs (ts ++ b ∷ []) in if has_table name b ts then ts else rest

-- `GetBeanByTableName`
unfoldable pub get_bean_by_table_name : {B : Type 0} → (B → Text) → Text → List B → Result B
get_bean_by_table_name name t [] = err (plain (codes "数据表" ++ (t ++ codes "不存在")))
get_bean_by_table_name name t (b ∷ bs) =
    let rest = get_bean_by_table_name name t bs in if text_eq (name b) t then ok b else rest

-- the search of `HasError` through wrapped errors
unfoldable pub is_absent : Err → Bool
is_absent (mysql_not_found t) = true
is_absent redis_nil = true
is_absent (wrap t e u) = is_absent e
is_absent _ = false

-- `HasError`; `none` is nil
unfoldable pub has_error : Option Err → Bool × Option Err
unfolding is_absent
has_error none = (true, none)
has_error (some e) = if is_absent e then (false, none) else (false, some e)

module _ {W B : Type 0} (b : Beans W B) where
  -- `memKey`
  unfoldable pub mem_key : B → Text → Text
  mem_key bean query = b.table_name bean ++ (codes "::" ++ query)

  -- `CacheMemKeys`
  unfoldable pub cache_mem_keys : B → List Text
  unfolding mem_key
  cache_mem_keys bean = map (mem_key bean) (b.values bean)

  -- `DelCache`; the publication of keys is `PubDelCache`
  unfoldable pub del_cache : (List Text → Action W (Unit {0})) → B → Action W (Unit {0})
  unfolding cache_mem_keys
  del_cache publish bean = publish (cache_mem_keys bean)

  -- the bytes of a row, null if there is none
  unfoldable pub row_bytes : Option B → Result Text
  row_bytes none = ok cache_null
  row_bytes (some row) = b.marshal row

  -- the load of `cacheGet`
  unfoldable pub load_row : Text → B → Action W Text
  unfolding row_bytes
  load_row query bean = do row ← b.get_row query bean; lift (row_bytes row)

  -- the end of `cacheGet`
  unfoldable pub read_row : Text → B → Text → Result B
  read_row key bean bytes =
      if text_eq bytes cache_null
      then err (mysql_not_found (codes "数据不存在: " ++ key))
      else b.unmarshal bytes bean

  -- `cacheGet`: the bean that it leaves
  unfoldable pub cache_get : Store W → B → Action W B
  unfolding mem_key load_row read_row
  cache_get s bean w = elim (b.values bean) [
    | [] ↦ (err (plain (codes "查询条件为空")), w)
    | query ∷ qs ↦
        (do
          bytes ← get_or_store s (mem_key bean query) (load_row query bean)
          lift (read_row (mem_key bean query) bean bytes))
          w
  ]

  -- the loop of `CacheRestore`
  unfoldable pub restore_keys : Store W → Text → List Text → Action W (Unit {0})
  restore_keys s val [] = pure tt
  restore_keys s val (k ∷ ks) = do s.set k val; restore_keys s val ks

  -- `CacheRestore`
  unfoldable pub cache_restore : Store W → B → Action W (Unit {0})
  unfolding restore_keys cache_mem_keys
  cache_restore s bean = do val ← lift (b.marshal bean); restore_keys s val (cache_mem_keys bean)
