-- ===== src/J2rpc/Middleware/Match.antt =====
-- Which methods a middleware runs for.
use mathlib.Core.List.{foldl, flat_map}
use gof.Base.{
  ◌≡◌, refl, Bool, true, false, List, [], ◌∷◌, ◌++◌, map, append-nil, arith, Text, text_eq_refl,
}
use gof.J2rpc.Error.{Outcome, ok}
use gof.J2rpc.Names.{snake_string, join, dot}
use gof.J2rpc.Names.Paths.{LacksDot, snake_path-dot}
use gof.J2rpc.Middleware.{
  Handle, nothing, method_path_equal, any_path, get_match_function, middle_info,
}

-- one of the paths equals the method, and none before it makes the regular expression panic
pub data Hits (regexp : Text → Text → Outcome Bool) (method : Text) : List Text → Type 0 where
  here :
      {s : Text} {ss : List Text}
      → method_path_equal regexp s method ≡ ok true
      → Hits regexp method (s ∷ ss)
  later :
      {s : Text} {ss : List Text}
      → method_path_equal regexp s method ≡ ok false
      → Hits regexp method ss
      → Hits regexp method (s ∷ ss)

-- every path is compared and differs
pub data Misses (regexp : Text → Text → Outcome Bool) (method : Text) : List Text → Type 0 where
  done : Misses regexp method []
  next :
      {s : Text} {ss : List Text}
      → method_path_equal regexp s method ≡ ok false
      → Misses regexp method ss
      → Misses regexp method (s ∷ ss)

module _ (regexp : Text → Text → Outcome Bool) (method : Text) where
  any_path-Hits : {ss : List Text} → Hits regexp method ss → any_path regexp ss method ≡ ok true
  unfolding any_path
  any_path-Hits (here e) = rw (e, any_path)
  any_path-Hits (later e h) = rw (e, any_path) (any_path-Hits h)

  any_path-Misses :
      {ss : List Text} → Misses regexp method ss → any_path regexp ss method ≡ ok false
  unfolding any_path
  any_path-Misses done = refl
  any_path-Misses (next e h) = rw (e, any_path) (any_path-Misses h)

  module _ {A : Type 0} (fn : Handle A) where
    -- A middleware added with lists of methods and exclusions does not run for a method that an
    -- exclusion equals, whatever its list of methods says.
    pub get_match_function_excluded :
        (ms es : List Text) (more : List (List Text))
        → Hits regexp method (foldl ◌++◌ es more)
        → get_match_function regexp (middle_info fn (ms ∷ es ∷ more)) method ≡ ok nothing
    unfolding get_match_function middle_info
    get_match_function_excluded ms es more h = rw (any_path-Hits h)

    -- It runs for a method that its list of methods equals, if no exclusion does.
    pub get_match_function_included :
        (ms es : List Text) (more : List (List Text))
        → Misses regexp method (foldl ◌++◌ es more)
        → Hits regexp method ms
        → get_match_function regexp (middle_info fn (ms ∷ es ∷ more)) method ≡ ok fn
    unfolding get_match_function middle_info
    get_match_function_included ms es more m h = rw (any_path-Misses m, any_path-Hits h)

-- A rule written with the Go names of the namespace and the method matches the method's name as
-- the server writes it in a request, whatever the regular expressions do.
pub method_path_equal-snake :
    (regexp : Text → Text → Outcome Bool) (ns m : Text)
    → LacksDot ns
    → LacksDot m
    → method_path_equal regexp (ns ++ dot ∷ m) (join (map snake_string (ns ∷ m ∷ []))) ≡ ok true
unfolding method_path_equal join flat_map
method_path_equal-snake regexp ns m h k = ground (
  arith,
  snake_path-dot ns m h k,
  append-nil (snake_string m),
  text_eq_refl (snake_string ns ++ dot ∷ snake_string m),
)
