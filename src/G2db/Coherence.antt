-- ===== src/G2db/Coherence.antt =====
-- A write in one process and a read in another: g2db/mysql.go `DelCache` and `cacheGet`, joined by the
-- channel of g2db/redis.go. Each process ranges over maps in an order of its own.
use gof.Base.{
  ◌≡◌, sym, ◌∙◌, true, false, some, List, ◌∷◌, ◌++◌, arith, any, Text, codes, text_eq, text_eq_refl,
}
use gof.Fault.{ok, err, not_found}
use gof.G2db.Cache.{cache_null}
use gof.G2cache.Store.{Store, IsStore}
use gof.G2db.Mysql.{Beans, mem_key, cache_mem_keys, cache_get}
use gof.G2db.Mysql.Rows.{cache_get_present}
use gof.G2db.Redis.{Json, pub_del_mem_name, publish_message, sub_handlers, sub_message}
use gof.G2db.Redis.Delivery.{IsJson, sub_message-publish}
use gof.G2db.Conditions.{Iteration, Naming, Bean, Condition, values}
use gof.G2db.Conditions.Order.{IsIteration, IsNaming, any-Perm, values-Perm}
use mathlib.Core.List.Permᴰ
use mathlib.Core.Option.{some-injective}

module _ (n : Naming) (it1 it2 : Iteration) (l1 : IsIteration it1) (l2 : IsIteration it2)
    (laws : IsNaming n) {W B : Type 0} (b1 b2 : Beans W B) (bean : B) (shape : Bean)
    (conditions : List Condition) where
  -- The keys that the writer publishes hold the one that the reader uses.
  keys_cover :
      (query : Text) (qs : List Text)
      → b1.table_name bean ≡ b2.table_name bean
      → values n it1 shape conditions ≡ some (b1.values bean)
      → values n it2 shape conditions ≡ some (b2.values bean)
      → b2.values bean ≡ query ∷ qs
      → any (λ i. text_eq i (mem_key b2 bean query)) (cache_mem_keys b1 bean) ≡ true
  unfolding mem_key cache_mem_keys
  keys_cover query qs same v1 v2 first =
      let (rs, v, π) = values-Perm n it1 it2 l1 l2 laws shape conditions (b1.values bean) v1 in
      let together : rs ≡ query ∷ qs = some-injective rs (b2.values bean) (sym v ∙ v2) ∙ first in
      any-Perm (λ i. text_eq i (b2.table_name bean ++ (codes "::" ++ query)))
        (Permᴰ.map (mem_key b1 bean) π)
      ∙ rw (together, same)
          (ground (arith, text_eq_refl (b2.table_name bean ++ (codes "::" ++ query))))

  module _ (j : Json) (json : IsJson j) (s : Store W) (store : IsStore s) (app : Text) where
    -- When one process has published the keys of a bean and another has handled the message, a read
    -- of the bean in the other one comes from the database, whatever was cached there before.
    pub cache_get-published :
        (query : Text) (qs : List Text) (raw msg bytes : Text) (row : B) (w w' : W)
        → b1.table_name bean ≡ b2.table_name bean
        → values n it1 shape conditions ≡ some (b1.values bean)
        → values n it2 shape conditions ≡ some (b2.values bean)
        → b2.values bean ≡ query ∷ qs
        → j.dump_keys (cache_mem_keys b1 bean) ≡ ok raw
        → publish_message j (pub_del_mem_name app) raw ≡ ok msg
        → b2.get_row query bean (sub_message j (sub_handlers j s app) msg w) ≡ (ok (some row), w')
        → b2.marshal row ≡ ok bytes
        → text_eq bytes cache_null ≡ false
        → cache_get b2 s bean (sub_message j (sub_handlers j s app) msg w)
          ≡ (b2.unmarshal bytes bean, (s.set (mem_key b2 bean query) bytes w').1)
    cache_get-published query qs raw msg bytes row w w' same v1 v2 first hk hm found marshalled
          full =
        let missing : s.get (mem_key b2 bean query) (sub_message j (sub_handlers j s app) msg w)
            ≡ err not_found =
          ground (
            arith,
            sub_message-publish j json s store app (cache_mem_keys b1 bean) raw msg
                (mem_key b2 bean query) w hk hm,
            keys_cover query qs same v1 v2 first,
          ) in
        (cache_get_present b2 s store bean row query qs _ w' bytes first missing found marshalled
          full).0
