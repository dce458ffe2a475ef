-- ===== src/G2db/Mysql/Rows.antt =====
-- Rows read through the cache.
use gof.Base.{
  ◌≡◌, refl, false, none, some, List, ◌∷◌, ◌++◌, arith, Text, codes, text_eq, text_eq_refl,
}
use gof.Fault.{Err, not_found, mysql_not_found, ok, err}
use gof.G2cache.Store.{Store, IsStore}
use gof.G2db.Cache.{cache_null, get_or_store}
use gof.G2db.Cache.ReadThrough.{get_or_store_miss, get_or_store_again}
use gof.G2db.Mysql.{Beans, mem_key, load_row, row_bytes, read_row, cache_get, has_error, is_absent}

module _ {W B : Type 0} (b : Beans W B) (s : Store W) (laws : IsStore s) where
  cache_get_run :
      (bean : B) (query : Text) (qs : List Text) (w : W) (bytes : Text)
      → b.values bean ≡ query ∷ qs
      → (get_or_store s (mem_key b bean query) (load_row b query bean) w).0 ≡ ok bytes
      → cache_get b s bean w ≡ (
        read_row b (mem_key b bean query) bean bytes,
        (get_or_store s (mem_key b bean query) (load_row b query bean) w).1,
      )
  unfolding cache_get
  cache_get_run bean query qs w bytes v h = rw (v, cache_get) (ground (arith, h))

  -- On a cache that keeps its promises, a row that is neither cached nor in the database is
  -- reported as not found, which `HasError` takes for no error; the absence is cached, so the next
  -- read reports the same and changes nothing.
  pub cache_get_absent :
      (bean : B) (query : Text) (qs : List Text) (w w' : W)
      → b.values bean ≡ query ∷ qs
      → s.get (mem_key b bean query) w ≡ err not_found
      → b.get_row query bean w ≡ (ok none, w')
      → (e : Err) × (cache_get b s bean w ≡ (err e, (s.set (mem_key b bean query) cache_null w').1))
        × (cache_get b s bean (cache_get b s bean w).1 ≡ (err e, (cache_get b s bean w).1))
        × (has_error (some e) ≡ (false, none))
  cache_get_absent bean query qs w w' v miss row =
      let key = mem_key b bean query in
      let load = load_row b query bean in
      let loaded : load w ≡ (ok cache_null, w') =
        (unfold load_row row_bytes in ground (arith, row)) in
      let got = get_or_store_miss s laws key load w cache_null w' miss loaded in
      let first = cache_get_run bean query qs w cache_null v (ground (arith, got)) in
      let again = get_or_store_again s laws key load w cache_null load (ground (arith, got)) in
      let null : read_row b key bean cache_null ≡ err (mysql_not_found (codes "数据不存在: " ++ key)) =
        (unfold read_row in ground (arith, text_eq_refl cache_null)) in
      let second =
        cache_get_run bean query qs (get_or_store s key load w).1 cache_null v
          (ground (arith, again)) in
      (
        mysql_not_found (codes "数据不存在: " ++ key),
        ground (arith, first, got, null),
        ground (arith, first, second, again, null),
        (unfold has_error is_absent in refl),
      )

  -- A row that is not in the cache is read from the database, and what the bean becomes is what its
  -- JSON reads as; the next read gives the same with no query.
  pub cache_get_present :
      (bean row : B) (query : Text) (qs : List Text) (w w' : W) (bytes : Text)
      → b.values bean ≡ query ∷ qs
      → s.get (mem_key b bean query) w ≡ err not_found
      → b.get_row query bean w ≡ (ok (some row), w')
      → b.marshal row ≡ ok bytes
      → text_eq bytes cache_null ≡ false
      → (cache_get b s bean w ≡ (b.unmarshal bytes bean, (s.set (mem_key b bean query) bytes w').1))
        × (cache_get b s bean (cache_get b s bean w).1
            ≡ (b.unmarshal bytes bean, (cache_get b s bean w).1))
  cache_get_present bean row query qs w w' bytes v miss found json full =
      let key = mem_key b bean query in
      let load = load_row b query bean in
      let loaded : load w ≡ (ok bytes, w') =
        (unfold load_row row_bytes in ground (arith, found, json)) in
      let got = get_or_store_miss s laws key load w bytes w' miss loaded in
      let first = cache_get_run bean query qs w bytes v (ground (arith, got)) in
      let again = get_or_store_again s laws key load w bytes load (ground (arith, got)) in
      let read : read_row b key bean bytes ≡ b.unmarshal bytes bean =
        (unfold read_row in ground (arith, full)) in
      let second =
        cache_get_run bean query qs (get_or_store s key load w).1 bytes v (ground (arith, again)) in
      (ground (arith, first, got, read), ground (arith, first, second, again, read))
