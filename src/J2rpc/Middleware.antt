-- ===== src/J2rpc/Middleware.antt =====
-- j2rpc/middleware.go and option.go: functions that run before the callback of a method.
pub mod Match
pub mod Chain
use mathlib.Core.List.{foldl}
use gof.Base.{
  Bool, true, false, not, Option, none, some, List, [], ◌∷◌, ◌++◌, if◌then◌else◌, Text, codes,
  text_eq,
}
use gof.J2rpc.Error.{GoError, Outcome, ok, err, panic}
use gof.J2rpc.Names.{snake_path}
use gof.J2rpc.Reflect.{GoType, Reflect, traits, is_error_type}
use gof.J2rpc.Reflect.Effect.{Effect, pure, lift, ◌>>=◌}
use gof.J2rpc.Callback.{Func}

-- the `interface{}` that a middleware is: nil, a function, or a value of another kind
pub data Handle (A : Type 0) : Type 0 where
  nothing : Handle A
  func : Func A → Handle A
  thing : Handle A

-- `middleInfo`
pub record MiddleInfo (A : Type 0) : Type 0 where
  pub method : List Text
  pub excludes : List Text
  pub function : Handle A
  pub all : Bool

-- `methodPathEqual`; the first argument is `regexp.MustCompile(s).MatchString(method)`, which
-- panics on a text that is no expression
unfoldable pub method_path_equal : (Text → Text → Outcome Bool) → Text → Text → Outcome Bool
method_path_equal regexp s method =
    if text_eq s method
    then ok true
    else if text_eq (snake_path s) method
    then ok true
    else regexp s method

-- a loop that looks for a path equal to the method
unfoldable pub any_path : (Text → Text → Outcome Bool) → List Text → Text → Outcome Bool
unfolding method_path_equal
any_path regexp [] method = ok false
any_path regexp (s ∷ ss) method =
    let rest = any_path regexp ss method in
    elim (method_path_equal regexp s method) [
      | ok true ↦ ok true
      | ok false ↦ rest
      | err e ↦ err e
      | panic p ↦ panic p
    ]

module _ {A : Type 0} where
  -- `getMatchFunction`
  unfoldable pub get_match_function :
      (Text → Text → Outcome Bool) → MiddleInfo A → Text → Outcome (Handle A)
  unfolding any_path
  get_match_function regexp m method =
      if m.all then ok m.function else elim (any_path regexp m.excludes method) [
        | err e ↦ err e
        | panic p ↦ panic p
        | ok true ↦ ok nothing
        | ok false ↦ elim (any_path regexp m.method method) [
          | err e ↦ err e
          | panic p ↦ panic p
          | ok true ↦ ok m.function
          | ok false ↦ ok nothing
        ]
      ]

  -- `AddBeforeMiddleware`: no list, the methods, or the methods and lists of exclusions
  unfoldable pub middle_info : Handle A → List (List Text) → MiddleInfo A
  middle_info fn [] = record { method = []; excludes = []; function = fn; all = true }
  middle_info fn (ms ∷ []) = record { method = ms; excludes = []; function = fn; all = false }
  middle_info fn (ms ∷ es ∷ more) = record {
    method = ms;
    excludes = foldl ◌++◌ es more;
    function = fn;
    all = false;
  }

  unfoldable pub add_before_middleware :
      Handle A → List (List Text) → List (MiddleInfo A) → List (MiddleInfo A)
  unfolding middle_info
  add_before_middleware fn ls before_mid = before_mid ++ middle_info fn ls ∷ []

-- go on unless an error was found
abbrev pub unless_found : Effect (Option GoError) → Option GoError → Effect (Option GoError)
unless_found k none = k
unless_found k (some e) = pure (some e)

module _ {A : Type 0} (R : Reflect A) where
  -- `callArgs[:n]` and the conversion of each argument; the capacity is four
  unfoldable pub fit_args : List A → List GoType → Outcome (List A)
  fit_args args [] = ok []
  fit_args [] (t ∷ ts) = panic (codes "slice bounds out of range")
  fit_args (a ∷ args) (t ∷ ts) = elim (fit_args args ts) [
    | err e ↦ err e
    | panic p ↦ panic p
    | ok rest ↦ ok ((if R.convertible_to a t then a else R.zero_of t) ∷ rest)
  ]

  -- what the results of a middleware say
  unfoldable pub middleware_error : List A → Outcome (Option GoError)
  unfolding traits
  middleware_error [] = ok none
  middleware_error (er ∷ rst) =
      if not (traits (R.type_of er)).is_nillable
      then panic (codes "IsNil of a value that cannot be nil")
      else if R.is_nil er
      then ok none
      else if is_error_type (R.type_of er)
      then ok (R.as_error er)
      else ok none

  -- `beforeMiddlewareFuncAction`
  unfoldable pub func_action : Handle A → List A → Effect (Option GoError)
  unfolding fit_args middleware_error
  func_action nothing args = pure none
  func_action thing args = pure none
  func_action (func f) args = do
    fitted ← lift (fit_args args f.ins)
    results ← f.run fitted
    lift (middleware_error results)

  -- the loop of `beforeMiddlewareAction`, left at the first error
  unfoldable pub before_action :
      (Text → Text → Outcome Bool) → List (MiddleInfo A) → Text → List A → Effect (Option GoError)
  unfolding get_match_function func_action
  before_action regexp [] method args = pure none
  before_action regexp (info ∷ infos) method args = do
    fn ← lift (get_match_function regexp info method)
    found ← func_action fn args
    unless_found (before_action regexp infos method args) found
