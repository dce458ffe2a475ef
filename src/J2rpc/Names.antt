-- ===== src/J2rpc/Names.antt =====
-- j2rpc/functions.go and message.go: the names of namespaces and methods. Texts are ASCII: of
-- `strings.ToLower` the mapping of A to Z is modelled.
pub mod Snake
pub mod Camel
pub mod Paths
use mathlib.Core.List.{flat_map}
use gof.Base.{
  ℕ, ◌+◌, ◌-◌, Bool, true, false, not, ◌&&◌, ◌||◌, List, [], ◌∷◌, ◌++◌, map, leb, ◌==◌,
  if◌then◌else◌, Text,
}

unfoldable pub is_upper : ℕ → Bool
is_upper d = leb b'A' d && leb d b'Z'

unfoldable pub is_lower : ℕ → Bool
is_lower d = leb b'a' d && leb d b'z'

-- `strings.ToLower`, one byte of an ASCII text; it leaves the bytes of other letters as they are, which Go
-- does not
unfoldable pub to_lower : ℕ → ℕ
unfolding is_upper
to_lower d = if is_upper d then d + 32 else d

abbrev pub underscore : ℕ
underscore = b'_'

abbrev pub dot : ℕ
dot = b'.'

-- the loop of `SnakeString` over the bytes left, `j` and `data`
unfoldable pub snake_loop : Text → Bool → Text → Text
snake_loop [] j out = out
snake_loop (d ∷ s) j out =
    let parted = snake_loop s false (out ++ underscore ∷ d ∷ []) in
    let copied = snake_loop s j (out ++ d ∷ []) in
    let marked = snake_loop s true (out ++ d ∷ []) in
    if is_upper d
    then (if j then parted else copied)
    else if not (d == underscore)
    then marked
    else copied

unfoldable pub snake_string : Text → Text
unfolding snake_loop to_lower
snake_string s = map to_lower (snake_loop s false [])

-- `num > i && s[i+1] >= 'a' && s[i+1] <= 'z'`
unfoldable pub head_is_lower : Text → Bool
unfolding is_lower
head_is_lower [] = false
head_is_lower (d ∷ s) = is_lower d

-- the loop of `CamelString` over the bytes left, `j`, `k` and `data`
unfoldable pub camel_loop : Text → Bool → Bool → Text → Text
camel_loop [] j k out = out
camel_loop (c ∷ s) j k out =
    let seen = k || is_upper c in
    let lift = is_lower c && (j || not seen) in
    let d = if lift then c - 32 else c in
    let j' = if lift then false else j in
    let k' = lift || seen in
    let skip = camel_loop s true k' out in
    let keep = camel_loop s j' k' (out ++ d ∷ []) in
    if k' && (d == underscore && head_is_lower s) then skip else keep

unfoldable pub camel_string : Text → Text
unfolding camel_loop is_upper is_lower head_is_lower
camel_string s = camel_loop s false false []

-- `strings.SplitN(s, ".", 2)`, with the bytes read so far
unfoldable pub split_two : Text → Text → List Text
split_two cur [] = cur ∷ []
split_two cur (c ∷ s) =
    let more = split_two (cur ++ c ∷ []) s in if c == dot then cur ∷ s ∷ [] else more

-- `strings.Split(s, ".")`, with the bytes read so far
unfoldable pub split_all : Text → Text → List Text
split_all cur [] = cur ∷ []
split_all cur (c ∷ s) =
    let next = split_all [] s in
    let more = split_all (cur ++ c ∷ []) s in if c == dot then cur ∷ next else more

-- `strings.Join(parts, ".")`
unfoldable pub join : List Text → Text
join [] = []
join (p ∷ ps) = p ++ flat_map (λ q. dot ∷ q) ps

-- middleware.go: `snakePath`
unfoldable pub snake_path : Text → Text
unfolding split_all join snake_string
snake_path s = join (map snake_string (split_all [] s))
