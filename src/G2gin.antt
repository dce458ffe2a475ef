-- ===== src/G2gin.antt =====
-- g2gin/gin-handler.go: a function as a handler of gin. Reflect and the binding of requests are
-- parameters, and a panic goes on to gin.
pub mod Arguments
pub mod Engine
pub mod Tests
pub mod LogLine
pub mod EngineTests
use gof.Base.{
  ℕ, ◌+◌, not, Option, none, some, List, [], ◌∷◌, ltb, ◌==◌, if◌then◌else◌, length, Text, codes,
}
use gof.J2rpc.Error.{GoError, other, error_text, says, bursts, Outcome, ok, err, panic}
use gof.J2rpc.Reflect.{GoType, Reflect, traits}

-- the parameter types that are told apart: gin's context, a pointer, a struct, map or slice, and any
-- other
pub data Parameter : Type 0 where
  context : Parameter
  pointer : GoType → Parameter
  aggregate : GoType → Parameter
  scalar : GoType → Parameter

-- the `interface{}` that `GinHandler` is given
pub data Target (A : Type 0) : Type 0 where
  thing : Target A
  func : List Parameter → (List A → Outcome (List A)) → Target A

-- `JSONResponse`; the code is also the status
pub record JsonResponse (A : Type 0) : Type 0 where
  pub code : ℕ
  pub msg : Text
  pub payload : Option A

module _ {A : Type 0} (bind : ℕ → GoType → Outcome A) (c : A) where
  -- the loop over the parameters: `bind n` is `ShouldBind` of a new value of the type, behind `n`
  -- other bindings of the same request, which may have read its body
  unfoldable pub bind_args : ℕ → List Parameter → Outcome (List A)
  bind_args n [] = ok []
  bind_args n (context ∷ ps) = elim (bind_args n ps) [
    | ok args ↦ ok (c ∷ args)
    | err e ↦ err e
    | panic p ↦ panic p
  ]
  bind_args n (pointer t ∷ ps) =
      let rest = bind_args (n + 1) ps in
      elim (bind n t) [
        | err e ↦ err e
        | panic p ↦ panic p
        | ok v ↦ elim rest [ ok args ↦ ok (v ∷ args) | err e ↦ err e | panic p ↦ panic p ]
      ]
  bind_args n (aggregate t ∷ ps) =
      let rest = bind_args (n + 1) ps in
      elim (bind n t) [
        | err e ↦ err e
        | panic p ↦ panic p
        | ok v ↦ elim rest [ ok args ↦ ok (v ∷ args) | err e ↦ err e | panic p ↦ panic p ]
      ]
  bind_args n (scalar t ∷ ps) = bind_args n ps

module _ {A : Type 0} where
  unfoldable pub unless_error : Option GoError → A → Outcome A
  unless_error none v = ok v
  unless_error (some e) v = err e

  -- `reflect.Value.Call`, which panics on a wrong number of arguments
  unfoldable pub reflect_call :
      List Parameter → (List A → Outcome (List A)) → List A → Outcome (List A)
  reflect_call ps run args =
      if length args == length ps
      then run args
      else panic (codes "reflect: Call with too few input arguments")

module _ {A : Type 0} (R : Reflect A) where
  -- `value2err`
  unfoldable pub gin_error : A → Option GoError
  unfolding traits
  gin_error v =
      if not (traits (R.type_of v)).is_error
      then none
      else if not (R.is_valid v)
      then none
      else if R.is_zero v
      then none
      else R.as_error v

  -- what the results of the call answer
  unfoldable pub answer : List A → Outcome A
  unfolding gin_error unless_error traits
  answer (r ∷ []) =
      if (traits (R.type_of r)).is_error
      then unless_error (gin_error r) (R.of_text (codes "OK"))
      else ok r
  answer (a ∷ b ∷ []) = unless_error (gin_error b) a
  answer _ = ok (R.of_text (codes "OK"))

-- the response to an error, which its method `Error` may keep from being written
unfoldable pub bad_request : {A : Type 0} → GoError → Outcome (JsonResponse A)
unfolding error_text
bad_request e = elim (error_text e) [
  | says t ↦ ok (record { code = 400; msg = t; payload = none })
  | bursts p ↦ panic p
]

module _ {A : Type 0} (R : Reflect A) (bind : ℕ → GoType → Outcome A) (c : A) where
  -- `parseArgumentFromContext`
  unfoldable pub parse_argument_from_context : Target A → Outcome A
  unfolding bind_args reflect_call answer
  parse_argument_from_context thing = err (other (codes "need func type"))
  parse_argument_from_context (func ps run) =
      if ltb 2 (length ps)
      then err (other (codes "too many arguments, want at most 2"))
      else elim (bind_args bind c 0 ps) [
        | err e ↦ err e
        | panic p ↦ panic p
        | ok args ↦ elim (reflect_call ps run args) [
          | err e ↦ err e
          | panic p ↦ panic p
          | ok results ↦ answer R results
        ]
      ]

  -- `GinHandler` with `JSONP`: the response, or the panic that goes on
  unfoldable pub gin_handler : Target A → Outcome (JsonResponse A)
  unfolding parse_argument_from_context bad_request
  gin_handler fn = elim (parse_argument_from_context fn) [
    | err e ↦ bad_request e
    | panic p ↦ panic p
    | ok v ↦ ok (record { code = 200; msg = []; payload = some v })
  ]
