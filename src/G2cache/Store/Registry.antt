-- ===== src/G2cache/Store/Registry.antt =====
-- The registry of caches after a registration.
use gof.Base.{◌≡◌, [], ◌∷◌, arith, if◌then◌else◌, Text, text_eq, text_eq_iff}
use gof.Base.Dict.{Dict, get-put}
use gof.Fault.{ok, err}
use gof.G2cache.Store.{register, get_store}

-- After a registration, a name gives the cache that it gave before if it gave one, and otherwise the
-- registered one, if that is its name; no registration replaces a cache.
pub get_store-register :
    {C : Type 0} (name n : Text) (s : C) (ins : Dict C)
    → get_store (n ∷ []) (register name s ins) ≡ elim (get_store (n ∷ []) ins) [
      | ok c ↦ ok c
      | err e ↦ (if text_eq name n then ok s else err e)
    ]
unfolding get_store register
get_store-register name n s ins = ground (arith, get-put name n s ins, text_eq_iff name n)
