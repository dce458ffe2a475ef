-- ===== src/J2rpc/Tests/Naming.antt =====
-- Names and middlewares on concrete inputs.
use mathlib.Core.List.{flat_map}
use gof.Base.{◌≡◌, refl, Bool, true, false, List, [], ◌∷◌, arith, All, Text, codes, text_eq}
use gof.Base.{◌≡◌, refl, Bool, true, false, List, [], ◌∷◌, arith, All, Text, codes}
use gof.J2rpc.Error.{Outcome, ok}
use gof.J2rpc.Names.{is_upper, snake_string, camel_string, snake_path}
use gof.J2rpc.Names.Camel.{Word, IsWord, spell, camel_string-snake_string}
use gof.J2rpc.Middleware.{func, MiddleInfo, method_path_equal, middle_info}
use gof.J2rpc.Tests.Samples.{boom_func}

abbrev two_words : List Word
two_words =
    record { capital = 83; second = 97; rest = codes "y" }
    ∷ record { capital = 72; second = 105; rest = [] }
    ∷ []

two_words-IsWord : All IsWord two_words
unfolding is_upper
two_words-IsWord = (
  record {
    capital = refl;
    second = (refl, (λ e. omega arith), omega arith);
    rest = ((refl, (λ e. omega arith), omega arith), tt);
  },
  (record { capital = refl; second = (refl, (λ e. omega arith), omega arith); rest = tt }, tt),
)

camel_string-snake_string_example : camel_string (snake_string (spell two_words)) ≡ spell two_words
camel_string-snake_string_example = camel_string-snake_string two_words two_words-IsWord

snake_say_hi : snake_string (spell two_words) ≡ codes "say_hi"
unfolding snake_string
snake_say_hi = refl

abbrev calm_regexp : Text → Text → Outcome Bool
calm_regexp s m = ok false

excluded_name : method_path_equal calm_regexp (codes "Echo.Hi") (codes "echo.hi") ≡ ok true
unfolding method_path_equal text_eq snake_path flat_map
excluded_name = refl

abbrev everywhere : List (MiddleInfo Text)
everywhere = middle_info (func boom_func) [] ∷ []
