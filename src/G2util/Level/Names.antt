-- ===== src/G2util/Level/Names.antt =====
-- Levels and their names.
use gof.Base.{ℕ, zero, suc, ◌≤◌, ◌≡◌, refl, map, arith, Text, text_eq}
use gof.G2util.Level.{marshal_text, parse_level, to_upper, trace_level}

below_eight : (P : ℕ → Type 0) → P 0 → P 1 → P 2 → P 3 → P 4 → P 5 → P 6 → (n : ℕ) → n ≤ 6 → P n
below_eight P a b c d e f g zero h = a
below_eight P a b c d e f g (suc zero) h = b
below_eight P a b c d e f g (suc (suc zero)) h = c
below_eight P a b c d e f g (suc (suc (suc zero))) h = d
below_eight P a b c d e f g (suc (suc (suc (suc zero)))) h = e
below_eight P a b c d e f g (suc (suc (suc (suc (suc zero))))) h = f
below_eight P a b c d e f g (suc (suc (suc (suc (suc (suc zero)))))) h = g
below_eight P a b c d e f g (suc (suc (suc (suc (suc (suc (suc n))))))) h = absurd (omega arith)

-- Every declared level is read back from its name, and from its name in capitals as `out` prints
-- it.
pub parse_level-marshal_text :
    (level : ℕ)
    → level ≤ trace_level
    → (parse_level (marshal_text level) ≡ level)
      × (parse_level (map to_upper (marshal_text level)) ≡ level)
unfolding parse_level marshal_text to_upper text_eq
parse_level-marshal_text =
    below_eight
      (λ n. (parse_level (marshal_text n) ≡ n) × (parse_level (map to_upper (marshal_text n)) ≡ n))
      (refl, refl) (refl, refl) (refl, refl) (refl, refl) (refl, refl) (refl, refl) (refl, refl)

-- Reading is total, and gives a declared level whatever the text is.
pub parse_level-le : (s : Text) → parse_level s ≤ trace_level
unfolding parse_level
parse_level-le s = ground arith
