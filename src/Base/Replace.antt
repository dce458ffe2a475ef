-- ===== src/Base/Replace.antt =====
-- `strings.Replace(s, old, new, -1)` for a text `old` that is not empty.
pub mod Fuel
use Prim.Native.Nat.{ℕ, zero, suc}
use mathlib.Core.Bool.{Bool, true, false}
use mathlib.Core.Option.{Option, none, some}
use mathlib.Core.List.{[], ◌∷◌, ◌++◌}
use gof.Base.Tests.{◌==◌, if◌then◌else◌}
use gof.Base.Lists.{length}
use gof.Base.Texts.{Text}

-- the text behind a prefix
unfoldable pub strip : Text → Text → Option Text
strip [] s = some s
strip (a ∷ p) [] = none
strip (a ∷ p) (b ∷ s) = let rest = strip p s in if a == b then rest else none

-- Each round takes at least one byte away, so as much fuel as the text is long is enough.
unfoldable pub replace_loop : ℕ → Text → Text → Text → Text
unfolding strip
replace_loop zero old new s = s
replace_loop (suc f) old new [] = []
replace_loop (suc f) old new (c ∷ s) = elim (strip old (c ∷ s)) [
  | some rest ↦ new ++ replace_loop f old new rest
  | none ↦ c ∷ replace_loop f old new s
]

unfoldable pub replace_all : Text → Text → Text → Text
unfolding replace_loop
replace_all old new s = replace_loop (length s) old new s

-- `strings.Contains(s, sub)`
unfoldable pub contains : Text → Text → Bool
unfolding strip
contains [] sub = elim (strip sub []) [ some rest ↦ true | none ↦ false ]
contains (c ∷ s) sub =
    let later = contains s sub in elim (strip sub (c ∷ s)) [ some rest ↦ true | none ↦ later ]
