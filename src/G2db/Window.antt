-- ===== src/G2db/Window.antt =====
-- The time between the publication of a write and its commit: g2db/session.go publishes the keys inside
-- the transaction, and g2db/cache.go deletes them when the message comes and once more two seconds later.
use gof.Base.{◌≡◌, refl, ◌∙◌, true, false, some, List, ◌∷◌, arith, any, Text, text_eq, text_eq_refl}
use gof.Fault.{ok, err, not_found}
use gof.G2cache.Store.{Store, IsStore}
use gof.G2db.Cache.{cache_null, get_or_store, on_delete}
use gof.G2db.Cache.Invalidate.{get-on_delete}
use gof.G2db.Mysql.{Beans, mem_key, read_row, cache_get}
use gof.G2db.Mysql.Rows.{cache_get_present}

module _ {W B : Type 0} (b : Beans W B) (s : Store W) (laws : IsStore s) where
  -- A cached row is read with no query and no change.
  cache_get_hit :
      (bean : B) (query : Text) (qs : List Text) (w : W) (bytes : Text)
      → b.values bean ≡ query ∷ qs
      → s.get (mem_key b bean query) w ≡ ok bytes
      → text_eq bytes cache_null ≡ false
      → cache_get b s bean w ≡ (b.unmarshal bytes bean, w)
  unfolding cache_get get_or_store read_row
  cache_get_hit bean query qs w bytes v h full = rw (v, cache_get) (ground (arith, h, full))

  deleted :
      (key : Text) (keys : List Text) (w : W)
      → any (λ k. text_eq k key) keys ≡ true
      → s.get key (on_delete s (some keys) w) ≡ err not_found
  deleted key keys w h = get-on_delete s laws (some keys) key w ∙ rw h refl

  -- A process reads a bean after it has handled the message of a write and before the write is
  -- committed. It finds the old row and caches it, and once the commit, which leaves the caches
  -- alone, has happened, it still gives the old row, with no query. The second deletion of the keys
  -- ends this if it comes behind the commit: then the row comes from the database.
  pub stale_until_deleted :
      (bean old new : B) (query : Text) (qs keys : List Text) (w w1 w2 : W) (commit : W → W)
      (bytes fresh : Text)
      → b.values bean ≡ query ∷ qs
      → any (λ k. text_eq k (mem_key b bean query)) keys ≡ true
      → b.get_row query bean (on_delete s (some keys) w) ≡ (ok (some old), w1)
      → b.marshal old ≡ ok bytes
      → text_eq bytes cache_null ≡ false
      → ((j : Text) (v : W) → s.get j (commit v) ≡ s.get j v)
      → b.get_row query bean
          (on_delete s (some keys) (commit (cache_get b s bean (on_delete s (some keys) w)).1))
        ≡ (ok (some new), w2)
      → b.marshal new ≡ ok fresh
      → text_eq fresh cache_null ≡ false
      → (let committed = commit (cache_get b s bean (on_delete s (some keys) w)).1 in
          (cache_get b s bean committed ≡ (b.unmarshal bytes bean, committed))
          × (cache_get b s bean (on_delete s (some keys) committed)
              ≡ (b.unmarshal fresh bean, (s.set (mem_key b bean query) fresh w2).1)))
  stale_until_deleted bean old new query qs keys w w1 w2 commit bytes fresh v covered found
        old_bytes old_full apart committed_row new_bytes new_full =
      let key = mem_key b bean query in
      let first =
        (cache_get_present b s laws bean old query qs (on_delete s (some keys) w) w1 bytes v
          (deleted key keys w covered) found old_bytes old_full).0 in
      let committed = commit (cache_get b s bean (on_delete s (some keys) w)).1 in
      let cached : s.get key committed ≡ ok bytes =
        apart key (cache_get b s bean (on_delete s (some keys) w)).1
        ∙ ground (arith, first, laws.get-set key key bytes w1, text_eq_refl key) in
      (
        cache_get_hit bean query qs committed bytes v cached old_full,
        (cache_get_present b s laws bean new query qs (on_delete s (some keys) committed) w2 fresh v
            (deleted key keys committed covered) committed_row new_bytes new_full).0,
      )
