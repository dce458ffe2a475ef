-- ===== src/G2db/SyncTests.antt =====
-- Runs of the synchronisation on a database that knows whether an index was added and how many rows
-- there are.
use gof.Base.{
  ℕ, suc, ◌+◌, ◌≡◌, refl, Bool, true, false, none, some, [], ◌∷◌, arith, if◌then◌else◌, length,
  Text, codes,
}
use gof.Base.Int.{pos}
use gof.Base.Replace.{replace_all}
use gof.Fault.{Err, plain, wrap, ok, err}
use gof.G2db.Conditions.{int, CompoundIndex}
use gof.G2db.Conditions.Index.{Sql, IsSql, create_index, add_index, show_index}
use gof.G2db.Mysql.{Transactions}
use gof.G2db.Mysql.Sync.{Ddl, Table, IsCounting, initialize_tables, sync_table, sync_tables}
use gof.G2db.Mysql.Engine.{Viper, get_data_source}
use gof.G2db.CoherenceTests.{naming, forwards}

abbrev World : Type 0
World = Bool × ℕ

abbrev session : Sql World
session = record {
  query = λ q w. (ok (if w.0 then 1 else 0), w);
  exec = λ q w. (ok tt, (true, w.1));
}

session-IsSql : IsSql session
session-IsSql = record {
  query-reads = λ q w. refl;
  query-added = λ u t cs w w' h. (0, ground (arith, h));
}

abbrev kinds : CompoundIndex
kinds = record { columns = (codes "A", int (pos 1)) ∷ (codes "B", int (pos 2)) ∷ []; unique = true }

created : create_index session naming forwards (codes "user") kinds (false, 0) ≡ (ok tt, (true, 0))
unfolding create_index
created = refl

-- one index, and the statements that would create it in the two orders
one_order :
    add_index true (codes "user") (codes "a" ∷ codes "b" ∷ [])
    ≡ codes "ALTER TABLE user ADD UNIQUE INDEX CUK_user_a_b (a,b)"
unfolding add_index
one_order = refl

other_order :
    show_index true (codes "user") (codes "b" ∷ codes "a" ∷ [])
    ≡ codes "SHOW INDEX FROM user WHERE Key_name = 'CUK_user_b_a'"
unfolding show_index
other_order = refl

abbrev database : Ddl World Text
database = record {
  sql = session;
  sync2 = λ bs w. (ok tt, w);
  count = λ b w. (ok (pos w.1), w);
  insert_all = λ bs w. (ok tt, (w.0, w.1 + length bs));
}

counted : (n k : ℕ) → (j : ℕ) × (n + suc k ≡ suc j)
counted n k = (n + k, omega arith)

database-IsCounting : IsCounting database
database-IsCounting = record {
  count-reads = λ b w. refl;
  count-inserted =
      λ b i is w w' h. (let (j, e) = counted w.1 (length is) in (j, ground (arith, h, e)));
}

filled :
    initialize_tables database (codes "user") [] (codes "x" ∷ codes "y" ∷ []) (false, 0)
    ≡ (ok tt, (true, 2))
unfolding initialize_tables
filled = refl

abbrev user : Table World Text
user = record {
  bean = [];
  name = codes "user";
  indexes = some (kinds ∷ []);
  init_data = some (codes "x" ∷ []);
  after_sync = none;
}

abbrev hooked : Table World Text
hooked = record user { name = codes "log"; after_sync = some (λ w. (err (plain (codes "no")), w)) }

abbrev steps : Transactions World
steps = record {
  begin = λ w. (ok tt, w);
  commit = λ w. (ok tt, w);
  rollback = λ w. (ok tt, (false, 0));
  close = λ w. (ok tt, w);
}

abbrev hook_error : Err
hook_error = wrap (codes "[AfterSync] [log] error: ") (plain (codes "no")) []

user_synced : sync_tables database naming forwards (user ∷ []) (false, 0) ≡ (ok tt, (true, 1))
unfolding sync_tables
user_synced = refl

hooked_fails : sync_table database naming forwards hooked (true, 1) ≡ (err hook_error, (true, 1))
unfolding sync_table
hooked_fails = refl

abbrev conf : Viper
conf = record {
  name = codes "app";
  db = [];
  dsn = codes "root@tcp({host})/{db}?x";
  host = codes "h";
  log_level = [];
  settings = λ k. [];
}

data_source : get_data_source conf true ≡ codes "root@tcp(h)/app?x"
unfolding get_data_source replace_all
data_source = refl

server_source : get_data_source conf false ≡ codes "root@tcp(h)/?x"
unfolding get_data_source replace_all
server_source = refl
