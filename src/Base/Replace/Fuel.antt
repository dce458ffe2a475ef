-- ===== src/Base/Replace/Fuel.antt =====
-- About the fuel of `strings.Replace` in Base/Replace.
use Prim.Native.Nat.{ℕ, zero, suc, ◌+◌, ◌≤◌}
use mathlib.Core.Path.{◌≡◌, refl}
use mathlib.Core.Logic.{inl, inr}
use mathlib.Core.Option.{some}
use mathlib.Core.List.{[], ◌∷◌}
use native.Mathlib.Omega.{arith}
use gof.Base.Tests.{Option-cases}
use gof.Base.Lists.{length}
use gof.Base.Texts.{Text}
use gof.Base.Replace.{strip, replace_loop}

length-strip : (p s r : Text) → strip p s ≡ some r → length s ≡ length p + length r
unfolding strip
length-strip [] s r h = ground (arith, h)
length-strip (a ∷ p) [] r h = ground (arith, h)
length-strip (a ∷ p) (b ∷ s) r h = let rest = length-strip p s r in ground (arith, h, rest)

-- For a text to replace that is not empty, more fuel changes nothing.
replace_loop_stable :
    (f g a : ℕ) (old new s : Text)
    → length s ≤ f
    → length s ≤ g
    → replace_loop f (a ∷ old) new s ≡ replace_loop g (a ∷ old) new s
unfolding replace_loop
replace_loop_stable zero zero a old new s h k = refl
replace_loop_stable zero (suc g) a old new [] h k = refl
replace_loop_stable zero (suc g) a old new (c ∷ s) h k = absurd (omega (arith, h))
replace_loop_stable (suc f) zero a old new [] h k = refl
replace_loop_stable (suc f) zero a old new (c ∷ s) h k = absurd (omega (arith, k))
replace_loop_stable (suc f) (suc g) a old new [] h k = refl
replace_loop_stable (suc f) (suc g) a old new (c ∷ s) h k =
    elim (Option-cases (strip (a ∷ old) (c ∷ s))) [
      | inl e ↦
          (let rest = replace_loop_stable f g a old new s (omega (arith, h)) (omega (arith, k)) in
            ground (arith, e, rest))
      | inr (r, e) ↦
          (let shorter = length-strip (a ∷ old) (c ∷ s) r e in
            let rest =
              replace_loop_stable f g a old new r (omega (arith, h, shorter))
                (omega (arith, k, shorter)) in
            ground (arith, e, rest))
    ]
