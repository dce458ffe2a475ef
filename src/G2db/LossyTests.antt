-- ===== src/G2db/LossyTests.antt =====
-- A cache that never shows keys of more than one byte, in front of a database that holds `0` for each key.
use gof.Base.{
  ◌≡◌, refl, inl, inr, false, Option, none, some, [], ◌∷◌, arith, ltb, if◌then◌else◌, Option-cases,
  length, any, Text, codes, text_eq,
}
use gof.Base.Dict.{Dict, get, put, remove, get-put, get-remove}
use gof.Fault.{ok}
use gof.G2cache.Store.{Store}
use gof.G2cache.Backends.{Item, bytes, string, value, item_bytes}
use gof.G2cache.Ristretto.{
  Client, IsClient, IsLossyStore, ristretto, last_bytes, ristretto-IsLossyStore,
}
use gof.G2db.Cache.{get_or_store, on_delete}
use gof.G2db.Cache.Transparent.{IsFresh, get_or_store_transparent, IsFresh-on_delete}

abbrev World : Type 0
World = Dict Text

abbrev lossy : Client World
lossy = record {
  get = λ k w.
      if ltb 1 (length k) then none else elim (get k w) [ none ↦ none | some d ↦ some (bytes d) ];
  set_with_ttl = λ k i cost w. elim i [ string d ↦ put k d w | bytes d ↦ put k d w | value r ↦ w ];
  del = λ k w. remove k w;
  clear = λ w. [];
}

abbrev last : Text → World → Option Item
last k w = elim (get k w) [ none ↦ none | some d ↦ some (bytes d) ]

lossy-IsClient : IsClient lossy last
unfolding get
lossy-IsClient = record {
  get-last = λ k i w h. ground (arith, h);
  last-set = λ k j d c w. ground (arith, get-put k j d w);
  last-del = λ k j w. ground (arith, get-remove k j w);
  last-clear = λ j w. refl;
}

last_reads :
    (k : Text) (i : Item) (w : World) → last k w ≡ some i → (d : Text) × (item_bytes i ≡ ok d)
unfolding item_bytes
last_reads k i w h = elim (Option-cases (get k w)) [
  | inl e ↦ ground (arith, h, e)
  | inr (d, e) ↦ (d, ground (arith, h, e))
]

abbrev cache : Store World
cache = ristretto lossy

cache_laws : IsLossyStore cache (last_bytes lossy last)
cache_laws = ristretto-IsLossyStore lossy last lossy-IsClient last_reads

abbrev zeros : Text → Text
zeros k = codes "0"

empty-IsFresh : IsFresh (last_bytes lossy last) zeros []
unfolding IsFresh last_bytes get
empty-IsFresh k d h = cc

get_or_store_transparent_example :
    ((get_or_store cache (codes "ab") (λ w. (ok (codes "0"), w)) []).0 ≡ ok (codes "0"))
    × IsFresh
        (last_bytes lossy last)
        zeros
        (get_or_store cache (codes "ab") (λ w. (ok (codes "0"), w)) []).1
get_or_store_transparent_example =
    get_or_store_transparent cache (last_bytes lossy last) cache_laws zeros (codes "ab")
      (λ w. (ok (codes "0"), w)) [] [] empty-IsFresh refl (λ k. refl)

-- the database after a write at the key `a`
abbrev written : Text → Text
written k = if text_eq (codes "a") k then codes "1" else codes "0"

one-IsFresh : IsFresh (last_bytes lossy last) zeros ((codes "a", codes "0") ∷ [])
unfolding IsFresh last_bytes get item_bytes
one-IsFresh k d h = ground (arith, h)

elsewhere : (j : Text) → any (λ k. text_eq k j) (codes "a" ∷ []) ≡ false → written j ≡ zeros j
elsewhere j h = ground (arith, h)

IsFresh-on_delete_example :
    IsFresh
      (last_bytes lossy last)
      written
      (on_delete cache (some (codes "a" ∷ [])) ((codes "a", codes "0") ∷ []))
IsFresh-on_delete_example =
    IsFresh-on_delete cache (last_bytes lossy last) cache_laws zeros written (codes "a" ∷ [])
      ((codes "a", codes "0") ∷ []) one-IsFresh elsewhere
