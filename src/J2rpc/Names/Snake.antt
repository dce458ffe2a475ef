-- ===== src/J2rpc/Names/Snake.antt =====
-- `SnakeString`: what it writes, once and again.
use gof.Base.{
  ℕ, ◌≡◌, refl, sym, ap, ◌∙◌, Bool, true, false, not, [], ◌∷◌, ◌++◌, map, append_assoc, append-nil,
  arith, ◌==◌, if◌then◌else◌, All, Text,
}
use gof.J2rpc.Names.{is_upper, to_lower, snake_loop, snake_string, underscore}

-- the loop without its accumulator
unfoldable pub snake_tail : Text → Bool → Text
snake_tail [] j = []
snake_tail (d ∷ s) j =
    let parted = snake_tail s false in
    let copied = snake_tail s j in
    let marked = snake_tail s true in
    if is_upper d
    then (if j then underscore ∷ d ∷ parted else d ∷ copied)
    else if not (d == underscore)
    then d ∷ marked
    else d ∷ copied

pub snake_loop-append :
    (s : Text) (j : Bool) (out : Text) → snake_loop s j out ≡ out ++ snake_tail s j
unfolding snake_loop snake_tail
snake_loop-append [] j out = sym (append-nil out)
snake_loop-append (d ∷ s) j out = ground (
  arith,
  snake_loop-append s false (out ++ underscore ∷ d ∷ []),
  snake_loop-append s j (out ++ d ∷ []),
  snake_loop-append s true (out ++ d ∷ []),
  append_assoc out (underscore ∷ d ∷ []) (snake_tail s false),
  append_assoc out (d ∷ []) (snake_tail s j),
  append_assoc out (d ∷ []) (snake_tail s true),
)

abbrev pub IsPlain : ℕ → Type 0
IsPlain d = is_upper d ≡ false

pub to_lower-IsPlain : (d : ℕ) → IsPlain (to_lower d)
unfolding to_lower
to_lower-IsPlain d = ground arith

to_lower_plain : (d : ℕ) → IsPlain d → to_lower d ≡ d
unfolding to_lower
to_lower_plain d h = ground arith

pub map-IsPlain : (s : Text) → All IsPlain (map to_lower s)
map-IsPlain [] = tt
map-IsPlain (d ∷ s) = (to_lower-IsPlain d, map-IsPlain s)

pub map_plain : (s : Text) → All IsPlain s → map to_lower s ≡ s
map_plain [] _ = refl
map_plain (d ∷ s) (h, hs) = cc (to_lower_plain d h, map_plain s hs)

pub snake_tail_plain : (s : Text) (j : Bool) → All IsPlain s → snake_tail s j ≡ s
unfolding snake_tail
snake_tail_plain [] j _ = refl
snake_tail_plain (d ∷ s) j (h, hs) =
    ground (arith, snake_tail_plain s j hs, snake_tail_plain s true hs)

pub snake_string-tail : (s : Text) → snake_string s ≡ map to_lower (snake_tail s false)
unfolding snake_string
snake_string-tail s = ap (map to_lower) (snake_loop-append s false [])

pub snake_string-IsPlain : (s : Text) → All IsPlain (snake_string s)
snake_string-IsPlain s = rw snake_string-tail (map-IsPlain _)

-- A name without capitals is left as it is.
pub snake_string_plain : (s : Text) → All IsPlain s → snake_string s ≡ s
snake_string_plain s h =
    snake_string-tail s ∙ (ap (map to_lower) (snake_tail_plain s false h) ∙ map_plain s h)

-- Converting a name twice gives what converting it once gives, for every name.
pub snake_string-snake_string : (s : Text) → snake_string (snake_string s) ≡ snake_string s
snake_string-snake_string s = snake_string_plain (snake_string s) (snake_string-IsPlain s)

-- the name without its underscores
pub letters : Text → Text
letters [] = []
letters (d ∷ s) = let rest = letters s in if d == underscore then rest else d ∷ rest

letters-snake_tail :
    (s : Text) (j : Bool) → letters (map to_lower (snake_tail s j)) ≡ map to_lower (letters s)
unfolding letters snake_tail to_lower
letters-snake_tail [] j = refl
letters-snake_tail (d ∷ s) j =
    ground (arith, letters-snake_tail s false, letters-snake_tail s j, letters-snake_tail s true)

-- The conversion only inserts underscores and lowers letters: without underscores, the result
-- is the name without underscores in lower case.
pub letters-snake_string : (s : Text) → letters (snake_string s) ≡ map to_lower (letters s)
letters-snake_string s = rw snake_string-tail (letters-snake_tail s false)
