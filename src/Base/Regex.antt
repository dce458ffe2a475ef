-- ===== src/Base/Regex.antt =====
-- Package regexp on patterns between `^` and `$` that are classes of characters one after another,
-- each with the numbers of its repetitions.
pub mod Laws
use Prim.Native.Nat.{ℕ, zero, suc}
use mathlib.Core.Bool.{Bool, true, false}
use mathlib.Core.Option.{Option, none, some}
use mathlib.Core.List.{List, [], ◌∷◌, flat_map}
use gof.Base.Tests.{if◌then◌else◌}
use gof.Base.Lists.{any}
use gof.Base.Texts.{Text}

-- a class, how often it comes at least, and how often at most, if there is a limit
pub record Item : Type 0 where
  pub holds : ℕ → Bool
  pub at_least : ℕ
  pub at_most : Option ℕ

abbrev pub is_nil : Text → Bool
is_nil [] = true
is_nil (c ∷ s) = false

abbrev pub one_less : Option ℕ → Option ℕ
one_less none = none
one_less (some zero) = some zero
one_less (some (suc n)) = some n

abbrev pub is_full : Option ℕ → Bool
is_full none = false
is_full (some zero) = true
is_full (some (suc n)) = false

-- what may be left of a text behind some more characters of a class
unfoldable pub more : (ℕ → Bool) → Option ℕ → Text → List Text
more p hi [] = [] ∷ []
more p hi (c ∷ s) =
    let longer = more p (one_less hi) s in
    (c ∷ s) ∷ (if is_full hi then [] else if p c then longer else [])

-- what may be left behind an item
unfoldable pub rests : (ℕ → Bool) → ℕ → Option ℕ → Text → List Text
unfolding more
rests p zero hi s = more p hi s
rests p (suc lo) hi [] = []
rests p (suc lo) hi (c ∷ s) = let later = rests p lo (one_less hi) s in if p c then later else []

unfoldable pub run : List Item → Text → List Text
unfolding rests
run [] s = s ∷ []
run (i ∷ is) s = flat_map (run is) (rests i.holds i.at_least i.at_most s)

-- `MatchString`
unfoldable pub matches : List Item → Text → Bool
unfolding run
matches is s = any is_nil (run is s)
