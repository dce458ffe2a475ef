-- ===== src/J2rpc/Args.antt =====
-- j2rpc/functions.go: the positional arguments of a call, from the raw parameters.
pub mod Count
use gof.Base.{ℕ, ◌+◌, Option, none, some, List, [], ◌∷◌, ◌++◌, length, Text, codes}
use gof.Base.Decimal.{decimal}
use gof.J2rpc.Error.{GoError, other, error_text, says, bursts, Outcome, ok, err, panic}
use gof.J2rpc.Reflect.{GoType, ptr, named, Reflect}

-- What the JSON decoder gives for the raw parameters: nothing at all, null, a bad first token,
-- another value, or an array, with its elements and the error after the last one, if any.
pub data Tokens : Type 0 where
  eof : Tokens
  null : Tokens
  bad : GoError → Tokens
  scalar : Tokens
  array : List Text → Option GoError → Tokens

module _ {A : Type 0} (R : Reflect A) where
  -- the loop of `parseArgumentArray` in round `i`, over the elements and the types left; `types`
  -- is how many types there are
  unfoldable pub argument_array :
      ℕ → ℕ → List Text → Option GoError → List GoType → List A → Outcome (List A)
  unfolding error_text decimal
  argument_array types i [] none ts args = ok args
  argument_array types i [] (some e) ts args = err e
  argument_array types i (x ∷ xs) end [] args =
      err (other (codes "too many arguments, want at most " ++ decimal types))
  argument_array types i (x ∷ xs) end (t ∷ ts) args = elim (R.decode t x) [
    | panic p ↦ panic p
    | err e ↦ elim (error_text e) [
      | says t ↦ err (other (codes "invalid argument " ++ (decimal i ++ (codes ": " ++ t))))
      | bursts p ↦ panic p
    ]
    | ok v ↦ argument_array types (i + 1) xs end ts (args ++ v ∷ [])
  ]

  -- the value of an argument that was not sent
  unfoldable pub missing : GoType → A
  missing (named t) = R.zero_of (named t)
  missing (ptr t e) = R.new_of e

  -- the loop that fills in what was not sent: the arguments so far and all types
  unfoldable pub fill : List A → List GoType → List A
  fill args [] = args
  fill [] (t ∷ ts) = missing t ∷ fill [] ts
  fill (a ∷ args) (t ∷ ts) = a ∷ fill args ts

  -- `parsePositionalArguments`
  unfoldable pub positional : Tokens → List GoType → Outcome (List A)
  unfolding argument_array missing fill
  positional eof types = ok (fill [] types)
  positional null types = ok (fill [] types)
  positional (bad e) types = err e
  positional scalar types = err (other (codes "non-array args"))
  positional (array xs end) types = elim (argument_array (length types) 0 xs end types []) [
    | ok args ↦ ok (fill args types)
    | err e ↦ err e
    | panic p ↦ panic p
  ]
