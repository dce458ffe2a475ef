-- ===== src/J2rpc/Reflect.antt =====
-- What the server reads of Go values and types by package reflect.
pub mod Effect
use gof.Base.{Bool, true, false, Option, Text}
use gof.J2rpc.Error.{GoError, Outcome}

-- whether a type implements `error` and `context.Context`, and whether `IsNil` may be called
pub record Traits : Type 0 where
  pub is_error : Bool
  pub is_context : Bool
  pub is_nillable : Bool

-- `reflect.Type`: a pointer has method sets of its own beside those of what it points to
pub data GoType : Type 0 where
  named : Traits → GoType
  ptr : Traits → GoType → GoType

unfoldable pub traits : GoType → Traits
traits (named t) = t
traits (ptr t e) = t

unfoldable pub is_ptr : GoType → Bool
is_ptr (named t) = false
is_ptr (ptr t e) = true

-- j2rpc/functions.go: `isErrorType` asks the type behind every pointer
unfoldable pub is_error_type : GoType → Bool
is_error_type (named t) = t.is_error
is_error_type (ptr t e) = is_error_type e

-- The operations on values of type `A` that the program leaves to reflect and to the JSON library.
pub record Reflect (A : Type 0) : Type 0 where
  -- `v.Type()`
  pub type_of : A → GoType
  -- `v.IsValid()`, `v.IsZero()`, `v.IsNil()`
  pub is_valid : A → Bool
  pub is_zero : A → Bool
  pub is_nil : A → Bool
  -- `v.Interface().(error)`, none if the value is no error
  pub as_error : A → Option GoError
  -- `reflect.ValueOf(v.Interface())`, none if that is nil
  pub unwrap : A → Option A
  -- `reflect.Zero(t)` and `reflect.New(t)`
  pub zero_of : GoType → A
  pub new_of : GoType → A
  -- `v.Type().ConvertibleTo(t)`
  pub convertible_to : A → GoType → Bool
  -- `reflect.ValueOf` of a string
  pub of_text : Text → A
  -- `json.Marshal`, and `dec.Decode` of one array element into a new value of a type
  pub marshal : A → Outcome Text
  pub decode : GoType → Text → Outcome A
