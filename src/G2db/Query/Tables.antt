-- ===== src/G2db/Query/Tables.antt =====
-- g2db/mysql_query_rows.go `QueryTableRows`: rows of a table that is registered.
use gof.Base.{List, Text}
use gof.Fault.{Action, lift, ◌>>=◌}
use gof.G2db.Mysql.{get_bean_by_table_name}
use gof.G2db.Query.{Driver, Params, MysqlRows, query_rows}

-- `QueryTableRows`
unfoldable pub query_table_rows :
    {W B : Type 0} → Driver W B → (B → Text) → List B → Text → Params → Action W (MysqlRows B)
unfolding get_bean_by_table_name query_rows
query_table_rows d name tables table params = do
  bean ← lift (get_bean_by_table_name name table tables)
  query_rows d (name bean) params
