-- ===== src/G2db/RowTests.antt =====
-- Runs of transactions, cached rows and merged beans on concrete inputs.
use gof.G2db.Cache.{get_or_store}
use gof.Base.{
  ℕ, ◌≡◌, refl, Bool, true, false, none, some, List, [], ◌∷◌, if◌then◌else◌, Text, codes, text_eq,
}
use gof.Base.Dict.{Dict, get, put, remove}
use gof.Fault.{Err, not_found, plain, ok, err, Action}
use gof.G2util.Maps
use gof.G2util.Maps.{copy_bean, merge_beans, bean_to_map}
use gof.G2cache.Store.{Store, IsStore}
use gof.G2cache.Backends.{ledis, ledis-IsStore}
use gof.G2cache.Tests.{table, table-IsClient}
use gof.G2db.Cache.{cache_null}
use gof.G2db.Mysql.{Transactions, Beans, mem_key, cache_get, has_error}
use gof.G2db.Mysql.Rows.{cache_get_absent}

-- A session of a database of one number: what it has written, what is committed, and whether a
-- transaction is open. Outside of one, each write is committed at once.
pub record Session : Type 0 where
  pub written : ℕ
  pub committed : ℕ
  pub is_open : Bool

abbrev steps : Transactions Session
steps = record {
  begin = λ w. (ok tt, record { written = w.committed; committed = w.committed; is_open = true });
  commit = λ w. (ok tt, record { written = w.written; committed = w.written; is_open = false });
  rollback =
      λ w. (ok tt, record { written = w.committed; committed = w.committed; is_open = false });
  close = λ w. (ok tt, w);
}

abbrev seen : Session → ℕ
seen w = w.committed

abbrev in_tx : Session → Bool
in_tx w = w.is_open

abbrev write_and_fail : Action Session (Unit {0})
write_and_fail w = (
  err (plain (codes "no")),
  record w { written = 5; committed = if w.is_open then w.committed else 5 },
)

abbrev at_one : Session
at_one = record { written = 1; committed = 1; is_open = false }

-- Beans are texts, the id of the row; the world is the cache alone, and the row `1` exists.
abbrev pub World : Type 0
World = Dict Text

abbrev pub memory : Store World
memory = ledis table

pub memory-IsStore : IsStore memory
memory-IsStore = ledis-IsStore table table-IsClient

abbrev pub texts : Beans World Text
texts = record {
  table_name = λ b. codes "user";
  values = λ b. b ∷ [];
  get_row = λ q b w. (ok (if text_eq q (codes "1") then some q else none), w);
  marshal = λ b. ok b;
  unmarshal = λ t b. ok t;
}

absent_missing : memory.get (mem_key texts (codes "2") (codes "2")) [] ≡ err not_found
unfolding mem_key get ledis
absent_missing = refl

absent_row : texts.get_row (codes "2") (codes "2") [] ≡ (ok none, [])
unfolding text_eq
absent_row = refl

cache_get_absent_example :
    (e : Err) × (cache_get texts memory (codes "2") []
      ≡ (err e, (memory.set (mem_key texts (codes "2") (codes "2")) cache_null []).1))
    × (cache_get texts memory (codes "2") (cache_get texts memory (codes "2") []).1
        ≡ (err e, (cache_get texts memory (codes "2") []).1))
    × (has_error (some e) ≡ (false, none))
cache_get_absent_example =
    cache_get_absent texts memory memory-IsStore (codes "2") (codes "2") [] [] [] refl
      absent_missing absent_row

abbrev drop_keys : List Text → Action World (Unit {0})
drop_keys [] w = (ok tt, w)
drop_keys (k ∷ ks) w = drop_keys ks (remove k w)

-- a bean is read as a map with its id alone
abbrev merging : Maps.Json Text Text
merging = record {
  marshal = λ b. ok b;
  unmarshal = λ t b. ok t;
  marshal_map = λ m. ok (elim (get (codes "id") m) [ none ↦ [] | some t ↦ t ]);
  unmarshal_map = λ t. ok ((codes "id", t) ∷ []);
  new_value = λ b. [];
}

copied : copy_bean merging (codes "1") ≡ ok (codes "1")
unfolding copy_bean get text_eq
copied = refl

merged : merge_beans merging (codes "1") (codes "1") ≡ ok (codes "1")
unfolding merge_beans get put text_eq
merged = refl

as_map : (t : Text) → bean_to_map merging t ≡ ok ((codes "id", t) ∷ [])
unfolding bean_to_map
as_map t = refl

abbrev cached : World
cached = (cache_get texts memory (codes "1") []).1

reads : cache_get texts memory (codes "1") [] ≡ (ok (codes "1"), cached)
unfolding cache_get get get_or_store ledis text_eq
reads = refl
