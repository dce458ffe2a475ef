-- ===== src/Base/Decimal.antt =====
-- What `fmt` and `strconv` print for integers in base ten.
pub mod Digits
use Prim.Native.Nat.{ℕ, zero, suc, ◌+◌, ◌/◌, ◌%◌}
use mathlib.Core.List.{[], ◌∷◌}
use gof.Base.Tests.{◌==◌, if◌then◌else◌}
use gof.Base.Texts.{Text}
use gof.Base.Int.{ℤ, pos, negsuc}

-- a number below `10 ^ f` has at most `f` digits
unfoldable pub digits : ℕ → ℕ → Text → Text
digits zero n out = out
digits (suc f) n out =
    let longer = (b'0' + n % 10) ∷ out in
    let more = digits f (n / 10) longer in if n / 10 == 0 then longer else more

unfoldable pub decimal : ℕ → Text
unfolding digits
decimal n = digits (suc n) n []

unfoldable pub int_text : ℤ → Text
unfolding decimal
int_text (pos n) = decimal n
int_text (negsuc n) = b'-' ∷ decimal (suc n)
