-- ===== src/G2util/Validator.antt =====
-- g2util/validator.go: the rules for passwords, mobile numbers and user names, and the translation of
-- errors. The validator and its translator are parameters.
pub mod Rules
pub mod Setup
use gof.Base.{
  ℕ, Bool, true, false, not, ◌&&◌, ◌||◌, Option, none, some, List, [], ◌∷◌, ◌++◌, leb, ◌==◌,
  if◌then◌else◌, Text, codes,
}
use gof.Base.Regex.{Item, matches}
use gof.J2rpc.Names.{is_upper, is_lower}
use gof.Fault.{Err, plain}

-- the classes of the patterns: `\S`, `.`, `\w`, and ranges
unfoldable pub is_blank : ℕ → Bool
is_blank c = c == 9 || (c == 10 || (c == 12 || (c == 13 || c == 32)))

abbrev pub not_blank : ℕ → Bool
not_blank c = not (is_blank c)

unfoldable pub is_dot : ℕ → Bool
is_dot c = not (c == 10)

unfoldable pub between : ℕ → ℕ → ℕ → Bool
between a b c = leb a c && leb c b

abbrev pub is_digit : ℕ → Bool
is_digit c = between b'0' b'9' c

abbrev pub is_word : ℕ → Bool
is_word c = is_digit c || (is_upper c || (is_lower c || c == b'_'))

abbrev pub times : (ℕ → Bool) → ℕ → ℕ → Item
times p lo hi = record { holds = p; at_least = lo; at_most = some hi }

-- `^.*[p]+.*$`
unfoldable pub somewhere : (ℕ → Bool) → List Item
unfolding is_dot
somewhere p =
    record { holds = is_dot; at_least = 0; at_most = none }
    ∷ record { holds = p; at_least = 1; at_most = none }
    ∷ record { holds = is_dot; at_least = 0; at_most = none }
    ∷ []

-- the function of `regPassword`
unfoldable pub valid_password : Text → Bool
unfolding matches somewhere is_blank between is_upper is_lower
valid_password str =
    if not (matches (times not_blank 8 24 ∷ []) str)
    then false
    else if not (matches (somewhere is_upper) str)
    then false
    else if not (matches (somewhere is_lower) str)
    then false
    else if not (matches (somewhere is_digit) str)
    then false
    else true

-- `regTranslationMobile`
unfoldable pub valid_mobile : Text → Bool
unfolding matches between
valid_mobile str =
    matches (times (λ c. c == b'1') 1 1 ∷ times (between b'3' b'9') 1 1 ∷ times is_digit 9 9 ∷ [])
      str

-- `regTranslationUsername`
unfoldable pub valid_username : Text → Bool
unfolding matches between is_upper is_lower
valid_username str = matches (times is_word 5 15 ∷ []) str

-- what the validator gives back: nil, errors of fields with their translations, a wrong use, or another
pub data Outcome : Type 0 where
  nil : Outcome
  validation_errors : List Text → Outcome
  invalid : Text → Outcome
  other : Err → Outcome

-- `listError.Error`
unfoldable pub list_error : List Text → Text
list_error [] = []
list_error (s ∷ []) = s
list_error (s ∷ t ∷ ts) = s ++ (b',' ∷ list_error (t ∷ ts))

-- `TranslateZh`; `none` is nil
unfoldable pub translate_zh : Outcome → Option Err
unfolding list_error
translate_zh nil = none
translate_zh (validation_errors list) = some (plain (list_error list))
translate_zh (invalid t) = some (plain (codes "Invalid:" ++ t))
translate_zh (other e) = some e
