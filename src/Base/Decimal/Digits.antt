-- ===== src/Base/Decimal/Digits.antt =====
-- Numbers read back from their digits.
use Prim.Native.Nat.{ℕ, zero, suc, ◌+◌, ◌-◌, ◌*◌, ◌/◌, ◌%◌, ◌<◌}
use mathlib.Core.Path.{◌≡◌, refl}
use mathlib.Core.Logic.{inl, inr}
use mathlib.Core.Bool.{Bool, true, false, ◌&&◌}
use mathlib.Core.List.{[], ◌∷◌}
use native.Mathlib.Omega.{arith}
use gof.Base.Tests.{◌==◌, leb, Bool-cases}
use gof.Base.Texts.{Text}
use gof.Base.Decimal.{decimal, digits}

unfoldable pub all_digits : Text → Bool
all_digits [] = true
all_digits (c ∷ s) = (leb b'0' c && leb c b'9') && all_digits s

-- a number from its digits, behind the number read so far
unfoldable pub read : ℕ → Text → ℕ
read n [] = n
read n (c ∷ s) = read (n * 10 + (c - b'0')) s

all_digits-digits :
    (f n : ℕ) (out : Text) → all_digits out ≡ true → all_digits (digits f n out) ≡ true
unfolding all_digits digits
all_digits-digits zero n out h = h
all_digits-digits (suc f) n out h =
    let small : n % 10 < 10 = omega arith in
    let good : all_digits ((b'0' + n % 10) ∷ out) ≡ true = ground (arith, h, small) in
    ground (arith, good, all_digits-digits f (n / 10) ((b'0' + n % 10) ∷ out) good)

read-digits : (f n : ℕ) (out : Text) → n < f → read 0 (digits f n out) ≡ read n out
unfolding read digits
read-digits zero n out h = absurd (omega (arith, h))
read-digits (suc f) n out h = elim (Bool-cases (n / 10 == 0)) [
  | inl q ↦ (let e : (b'0' + n % 10) - b'0' ≡ n = ground (arith, q) in ground (arith, q, e))
  | inr q ↦
      (let less : n / 10 < f = omega (arith, h, ne q) in
        let whole : n / 10 * 10 + ((b'0' + n % 10) - b'0') ≡ n = omega arith in
        ground (arith, q, read-digits f (n / 10) ((b'0' + n % 10) ∷ out) less, whole))
]
  where
    ne : (n / 10 == 0) ≡ false → 0 < n / 10
    ne q = ground (arith, q)

pub all_digits-decimal : (n : ℕ) → all_digits (decimal n) ≡ true
unfolding decimal all_digits
all_digits-decimal n = all_digits-digits (suc n) n [] refl

pub read-decimal : (n : ℕ) → read 0 (decimal n) ≡ n
unfolding decimal read
read-decimal n = read-digits (suc n) n [] (omega arith)
