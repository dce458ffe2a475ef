-- ===== src/Base/Base64.antt =====
-- Package encoding/base64 with the standard alphabet, on bytes.
pub mod Decoded
use Prim.Native.Nat.{ℕ, ◌+◌, ◌-◌, ◌*◌, ◌/◌, ◌%◌}
use mathlib.Core.Bool.{Bool, true, false, ◌&&◌}
use mathlib.Core.Option.{Option, none, some}
use mathlib.Core.List.{[], ◌∷◌}
use gof.Base.Tests.{◌==◌, ltb, leb, if◌then◌else◌}
use gof.Base.Texts.{Text}

abbrev pub pad : ℕ
pad = b'='

-- the alphabet
unfoldable pub char_of : ℕ → ℕ
char_of v =
    if ltb v 26
    then v + 65
    else if ltb v 52
    then v + 71
    else if ltb v 62
    then v - 4
    else if v == 62
    then b'+'
    else b'/'

unfoldable pub value_of : ℕ → Option ℕ
value_of c =
    if leb 65 c && leb c 90
    then some (c - 65)
    else if leb 97 c && leb c 122
    then some (c - 71)
    else if leb 48 c && leb c 57
    then some (c + 4)
    else if c == b'+'
    then some 62
    else if c == b'/'
    then some 63
    else none

-- `Encode`
unfoldable pub encode : Text → Text
unfolding char_of
encode [] = []
encode (a ∷ []) = char_of (a / 4) ∷ char_of (a % 4 * 16) ∷ pad ∷ pad ∷ []
encode (a ∷ b ∷ []) =
    char_of (a / 4) ∷ char_of (a % 4 * 16 + b / 16) ∷ char_of (b % 16 * 4) ∷ pad ∷ []
encode (a ∷ b ∷ c ∷ s) =
    char_of (a / 4)
    ∷ char_of (a % 4 * 16 + b / 16)
    ∷ char_of (b % 16 * 4 + c / 64)
    ∷ char_of (c % 64)
    ∷ encode s

-- line ends are skipped
unfoldable pub without_lines : Text → Text
without_lines [] = []
without_lines (c ∷ s) =
    let rest = without_lines s in if c == 10 then rest else if c == 13 then rest else c ∷ rest

abbrev pub is_end : Text → Bool
is_end [] = true
is_end (c ∷ s) = false

abbrev pub first_byte : ℕ → ℕ → ℕ
first_byte a b = (a * 4 + b / 16) % 256

abbrev pub second_byte : ℕ → ℕ → ℕ
second_byte b c = (b * 16 + c / 4) % 256

abbrev pub third_byte : ℕ → ℕ → ℕ
third_byte c d = (c * 64 + d) % 256

-- the end of a group behind its first two values: one byte if both others are padding
unfoldable pub close_one : ℕ → ℕ → ℕ → Text → Option Text
close_one a b d s = if d == pad && is_end s then some (first_byte a b ∷ []) else none

-- two bytes if the last one is
unfoldable pub close_two : ℕ → ℕ → ℕ → Text → Option Text
close_two a b c s = if is_end s then some (first_byte a b ∷ second_byte b c ∷ []) else none

unfoldable pub close_three : ℕ → ℕ → ℕ → ℕ → Option Text → Option Text
close_three a b c d rest = elim rest [
  | none ↦ none
  | some t ↦ some (first_byte a b ∷ second_byte b c ∷ third_byte c d ∷ t)
]

-- the third and the fourth character of a group; `rest` is what the groups behind it decode to
unfoldable pub group_end : ℕ → ℕ → ℕ → ℕ → Text → Option Text → Option Text
unfolding close_one close_two close_three
group_end a b c d s rest =
    let one = close_one a b d s in
    let more = elim (value_of c) as (λ _. Option Text) [
      | none ↦ none
      | some vc ↦
          (let two = close_two a b vc s in
            let three = elim (value_of d) as (λ _. Option Text) [
              | none ↦ none
              | some vd ↦ close_three a b vc vd rest
            ] in
            if d == pad then two else three)
    ] in
    if c == pad then one else more

unfoldable pub decode_groups : Text → Option Text
unfolding group_end
decode_groups [] = some []
decode_groups (a ∷ b ∷ c ∷ d ∷ s) =
    let rest = decode_groups s in
    elim (value_of a) [
      | none ↦ none
      | some va ↦ elim (value_of b) [ none ↦ none | some vb ↦ group_end va vb c d s rest ]
    ]
decode_groups _ = none

-- `Decode`
unfoldable pub decode : Text → Option Text
unfolding decode_groups without_lines
decode s = decode_groups (without_lines s)
