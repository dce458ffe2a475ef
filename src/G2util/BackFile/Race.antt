-- ===== src/G2util/BackFile/Race.antt =====
-- `Close` reads the flag before it takes the lock.
use gof.Base.{◌≡◌, refl, true, false, none, some, arith}
use gof.G2util.BackFile.{InnerIo, close, close_locked}

-- Of an open log, two calls of `Close` one after the other return, and the second changes
-- nothing; but two calls that both read the flag before either takes the lock panic: the second
-- closes the channel again.
pub close_race :
    (i : InnerIo)
    → i.closed ≡ false
    → i.channel_closed ≡ false
    → (j : InnerIo) × (close i ≡ some j)
      × (close j ≡ some j)
      × (close_locked i ≡ some j)
      × (close_locked j ≡ none)
unfolding close close_locked
close_race i f c =
    (record i { closed = true; channel_closed = true }, ground arith, refl, ground arith, refl)
