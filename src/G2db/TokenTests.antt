-- ===== src/G2db/TokenTests.antt =====
-- The entry of one user's token.
use gof.Base.{◌≡◌, refl, codes}
use gof.Base.Int.{pos}
use gof.G2db.Token.Options.{mem_cache_key_injective}

mem_cache_key_injective_example : (codes "h:token" ≡ codes "h:token") × (pos 7 ≡ pos 7)
mem_cache_key_injective_example =
    mem_cache_key_injective (codes "app") (codes "h:token") (codes "h:token") (pos 7) (pos 7) refl
