-- ===== src/Base/Base64/Decoded.antt =====
-- Decoding what was encoded.
use Prim.Native.Nat.{ℕ, ◌+◌, ◌*◌, ◌/◌, ◌%◌, ◌<◌}
use mathlib.Core.Path.{◌≡◌, refl, ap, ◌∙◌}
use mathlib.Core.Bool.{false}
use mathlib.Core.Option.{Option, some}
use mathlib.Core.List.{[], ◌∷◌}
use native.Mathlib.Omega.{arith}
use gof.Base.Tests.{◌==◌}
use gof.Base.Lists.{All}
use gof.Base.Texts.{Text}
use gof.Base.Base64.{
  pad, char_of, value_of, encode, without_lines, group_end, close_one, close_two, close_three,
  decode_groups, decode, first_byte, second_byte, third_byte,
}

value_of-char_of : (v : ℕ) → v < 64 → value_of (char_of v) ≡ some v
unfolding value_of char_of
value_of-char_of v h = ground (arith, h)

char_of-plain :
    (v : ℕ)
    → v < 64
    → ((char_of v == pad) ≡ false) × ((char_of v == 10) ≡ false) × ((char_of v == 13) ≡ false)
unfolding char_of
char_of-plain v h = (ground (arith, h), ground (arith, h), ground (arith, h))

-- a byte
unfoldable pub IsByte : ℕ → Type 0
IsByte b = b < 256

first_back : (a r : ℕ) → a < 256 → r < 16 → first_byte (a / 4) (a % 4 * 16 + r) ≡ a
first_back a r h k = omega (arith, h, k)

first_back_alone : (a : ℕ) → a < 256 → first_byte (a / 4) (a % 4 * 16) ≡ a
first_back_alone a h = omega (arith, h)

second_back : (a b r : ℕ) → b < 256 → r < 4 → second_byte (a % 4 * 16 + b / 16) (b % 16 * 4 + r) ≡ b
second_back a b r h k = omega (arith, h, k)

second_back_alone : (a b : ℕ) → b < 256 → second_byte (a % 4 * 16 + b / 16) (b % 16 * 4) ≡ b
second_back_alone a b h = omega (arith, h)

third_back : (b c : ℕ) → c < 256 → third_byte (b % 16 * 4 + c / 64) (c % 64) ≡ c
third_back b c h = omega (arith, h)

without_lines-char_of :
    (v : ℕ) (s : Text) → v < 64 → without_lines (char_of v ∷ s) ≡ char_of v ∷ without_lines s
unfolding without_lines
without_lines-char_of v s h = ground (arith, char_of-plain v h)

-- two characters at the front of a group
two_plain :
    (u v : ℕ) (s : Text)
    → u < 64
    → v < 64
    → without_lines (char_of u ∷ char_of v ∷ s) ≡ char_of u ∷ char_of v ∷ without_lines s
two_plain u v s h k =
    without_lines-char_of u (char_of v ∷ s) h
    ∙ ap (λ x. char_of u ∷ x) (without_lines-char_of v s k)

without_lines-encode : (s : Text) → All IsByte s → without_lines (encode s) ≡ encode s
unfolding encode IsByte
without_lines-encode [] h = (unfold without_lines in refl)
without_lines-encode (a ∷ []) (h, _) =
    two_plain (a / 4) (a % 4 * 16) (pad ∷ pad ∷ []) (omega (arith, h)) (omega arith)
    ∙ ap (λ x. char_of (a / 4) ∷ char_of (a % 4 * 16) ∷ x) (unfold without_lines in refl)
without_lines-encode (a ∷ b ∷ []) (h, (k, _)) =
    two_plain (a / 4) (a % 4 * 16 + b / 16) (char_of (b % 16 * 4) ∷ pad ∷ []) (omega (arith, h))
      (omega (arith, k))
    ∙ ap (λ x. char_of (a / 4) ∷ char_of (a % 4 * 16 + b / 16) ∷ x)
        (without_lines-char_of (b % 16 * 4) (pad ∷ []) (omega arith)
          ∙ ap (λ x. char_of (b % 16 * 4) ∷ x) (unfold without_lines in refl))
without_lines-encode (a ∷ b ∷ c ∷ s) (h, (k, (l, t))) =
    two_plain (a / 4) (a % 4 * 16 + b / 16)
      (char_of (b % 16 * 4 + c / 64) ∷ char_of (c % 64) ∷ encode s) (omega (arith, h))
      (omega (arith, k))
    ∙ ap (λ x. char_of (a / 4) ∷ char_of (a % 4 * 16 + b / 16) ∷ x)
        (two_plain (b % 16 * 4 + c / 64) (c % 64) (encode s) (omega (arith, l)) (omega arith)
          ∙ ap (λ x. char_of (b % 16 * 4 + c / 64) ∷ char_of (c % 64) ∷ x)
              (without_lines-encode s t))

group :
    (va vb c d : ℕ) (s : Text)
    → va < 64
    → vb < 64
    → decode_groups (char_of va ∷ char_of vb ∷ c ∷ d ∷ s) ≡ group_end va vb c d s (decode_groups s)
unfolding decode_groups
group va vb c d s h k = ground (arith, value_of-char_of va h, value_of-char_of vb k)

end_one :
    (va vb : ℕ) (rest : Option Text)
    → group_end va vb pad pad [] rest ≡ some (first_byte va vb ∷ [])
unfolding group_end close_one
end_one va vb rest = refl

end_two :
    (va vb vc : ℕ) (rest : Option Text)
    → vc < 64
    → group_end va vb (char_of vc) pad [] rest ≡ some (first_byte va vb ∷ second_byte vb vc ∷ [])
unfolding group_end close_two
end_two va vb vc rest h = ground (arith, char_of-plain vc h, value_of-char_of vc h)

end_three :
    (va vb vc vd : ℕ) (s t : Text)
    → vc < 64
    → vd < 64
    → group_end va vb (char_of vc) (char_of vd) s (some t)
      ≡ some (first_byte va vb ∷ second_byte vb vc ∷ third_byte vc vd ∷ t)
unfolding group_end close_three
end_three va vb vc vd s t h k =
    ground
      (arith, char_of-plain vc h, char_of-plain vd k, value_of-char_of vc h, value_of-char_of vd k)

decode_groups-encode : (s : Text) → All IsByte s → decode_groups (encode s) ≡ some s
unfolding encode IsByte
decode_groups-encode [] h = (unfold decode_groups in refl)
decode_groups-encode (a ∷ []) (h, _) =
    group (a / 4) (a % 4 * 16) pad pad [] (omega (arith, h)) (omega arith)
    ∙ (end_one (a / 4) (a % 4 * 16) (decode_groups [])
        ∙ ap (λ x. some (x ∷ [])) (first_back_alone a h))
decode_groups-encode (a ∷ b ∷ []) (h, (k, _)) =
    let va = a / 4 in
    let vb = a % 4 * 16 + b / 16 in
    let vc = b % 16 * 4 in
    group va vb (char_of vc) pad [] (omega (arith, h)) (omega (arith, k))
    ∙ (end_two va vb vc (decode_groups []) (omega arith)
        ∙ ground (arith, first_back a (b / 16) h (omega (arith, k)), second_back_alone a b k))
decode_groups-encode (a ∷ b ∷ c ∷ s) (h, (k, (l, t))) =
    let va = a / 4 in
    let vb = a % 4 * 16 + b / 16 in
    let vc = b % 16 * 4 + c / 64 in
    let vd = c % 64 in
    group va vb (char_of vc) (char_of vd) (encode s) (omega (arith, h)) (omega (arith, k))
    ∙ (ap (group_end va vb (char_of vc) (char_of vd) (encode s)) (decode_groups-encode s t)
        ∙ (end_three va vb vc vd (encode s) s (omega (arith, l)) (omega arith)
            ∙ ground (
              arith,
              first_back a (b / 16) h (omega (arith, k)),
              second_back a b (c / 64) k (omega (arith, l)),
              third_back b c l,
            )))

-- Bytes that are encoded decode to themselves.
pub decode-encode : (s : Text) → All IsByte s → decode (encode s) ≡ some s
unfolding decode
decode-encode s h = rw (without_lines-encode s h) (decode_groups-encode s h)
