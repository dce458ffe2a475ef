-- ===== src/G2db/WindowTests.antt =====
-- A write whose commit comes behind the deletion of its keys.
use gof.Base.{◌≡◌, refl, true, false, some, List, [], ◌∷◌, any, Text, codes, text_eq}
use gof.Base.Dict.{Dict, put}
use gof.Fault.{ok}
use gof.G2cache.Store.{Store, IsStore}
use gof.G2db.Cache.{cache_null, on_delete}
use gof.G2db.Mysql.{Beans, mem_key, cache_get}
use gof.G2db.Window.{stale_until_deleted}
use gof.G2db.RowTests.{memory, memory-IsStore}

-- the cache of a process, and the row as others see it
abbrev Shared : Type 0
Shared = Dict Text × Text

abbrev shared : Store Shared
shared = record {
  get = λ k w. memory.get k w.0;
  set = λ k v w. ((memory.set k v w.0).0, ((memory.set k v w.0).1, w.1));
  delete = λ k w. ((memory.delete k w.0).0, ((memory.delete k w.0).1, w.1));
  reset = λ w. ((memory.reset w.0).0, ((memory.reset w.0).1, w.1));
}

shared-IsStore : IsStore shared
shared-IsStore = record {
  set_ok = λ k v w. memory-IsStore.set_ok k v w.0;
  get-set = λ k j v w. memory-IsStore.get-set k j v w.0;
  delete_ok = λ k w. memory-IsStore.delete_ok k w.0;
  get-delete = λ k j w. memory-IsStore.get-delete k j w.0;
  reset_ok = λ w. memory-IsStore.reset_ok w.0;
  get-reset = λ j w. memory-IsStore.get-reset j w.0;
}

abbrev rows : Beans Shared Text
rows = record {
  table_name = λ b. codes "user";
  values = λ b. codes "id=1" ∷ [];
  get_row = λ q b w. (ok (some w.1), w);
  marshal = ok;
  unmarshal = λ t b. ok t;
}

abbrev commit : Shared → Shared
commit (c, r) = (c, codes "new")

abbrev user_keys : List Text
user_keys = codes "user::id=1" ∷ []

covered : any (λ k. text_eq k (mem_key rows [] (codes "id=1"))) user_keys ≡ true
unfolding mem_key text_eq
covered = refl

old_full : text_eq (codes "old") cache_null ≡ false
unfolding text_eq
old_full = refl

new_full : text_eq (codes "new") cache_null ≡ false
unfolding text_eq
new_full = refl

abbrev before : Shared
before = (put (codes "user::id=1") (codes "older") [], codes "old")

abbrev committed : Shared
committed = commit (cache_get rows shared [] (on_delete shared (some user_keys) before)).1

row_of :
    rows.get_row (codes "id=1") [] (on_delete shared (some user_keys) before)
    ≡ (ok (some (codes "old")), on_delete shared (some user_keys) before)
unfolding on_delete
row_of = refl

new_row :
    rows.get_row (codes "id=1") [] (on_delete shared (some user_keys) committed)
    ≡ (ok (some (codes "new")), on_delete shared (some user_keys) committed)
unfolding on_delete
new_row = refl

stale_until_deleted_example :
    (cache_get rows shared [] committed ≡ (ok (codes "old"), committed))
    × (cache_get rows shared [] (on_delete shared (some user_keys) committed) ≡ (
      ok (codes "new"),
      (shared.set
          (mem_key rows [] (codes "id=1"))
          (codes "new")
          (on_delete shared (some user_keys) committed)).1,
    ))
stale_until_deleted_example =
    stale_until_deleted rows shared shared-IsStore [] (codes "old") (codes "new") (codes "id=1") []
      user_keys before (on_delete shared (some user_keys) before)
      (on_delete shared (some user_keys) committed) commit (codes "old") (codes "new") refl covered
      row_of refl old_full (λ j v. refl) new_row refl new_full
