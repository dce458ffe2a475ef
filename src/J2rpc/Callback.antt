-- ===== src/J2rpc/Callback.antt =====
-- j2rpc/callback.go: a method of a registered object, seen through reflect.
use gof.Base.{
  ℕ, Bool, true, false, not, ◌||◌, Option, none, some, List, [], ◌∷◌, ◌++◌, if◌then◌else◌,
  get_elem?, Text, codes,
}
use gof.J2rpc.Error.{GoError, Outcome, ok, err, panic, fail, new_error, err_internal}
use gof.J2rpc.Reflect.{GoType, Reflect, traits, is_error_type}
use gof.J2rpc.Reflect.Effect.{Effect, lift, recover, ◌>>=◌}

-- a Go function: its parameter and result types, and what a call does
pub record Func (A : Type 0) : Type 0 where
  pub ins : List GoType
  pub outs : List GoType
  pub run : List A → Effect (List A)

-- `callback`; `err_pos` is none for -1, `rcv` is none if it is not valid
pub record Callback (A : Type 0) : Type 0 where
  pub method_name : Text
  pub rcv : Option A
  pub fn : Func A
  pub arg_types : List GoType
  pub has_ctx : Bool
  pub err_pos : Option ℕ

-- the results that a callback may have: whether they are accepted, and `errPos`
unfoldable pub result_shape : List GoType → Option (Option ℕ)
result_shape [] = some none
result_shape (a ∷ []) = some (if is_error_type a then some 0 else none)
result_shape (a ∷ b ∷ []) = if is_error_type a || not (is_error_type b) then none else some (some 1)
result_shape (a ∷ b ∷ c ∷ r) = none

abbrev pub drop_receiver {ℓ} : {B : Type ℓ} → Bool → List B → List B
drop_receiver true (t ∷ ts) = ts
drop_receiver _ ts = ts

-- whether the first parameter is a context, and the parameters behind it
unfoldable pub split_context : List GoType → Bool × List GoType
unfolding traits
split_context [] = (false, [])
split_context (t ∷ ts) = if (traits t).is_context then (true, ts) else (false, t ∷ ts)

abbrev pub is_some {ℓ} : {B : Type ℓ} → Option B → Bool
is_some none = false
is_some (some b) = true

module _ {A : Type 0} where
  -- `makeArgTypes`, none where it returns false
  unfoldable pub make_arg_types : Callback A → Option (Callback A)
  unfolding result_shape split_context
  make_arg_types c = elim (result_shape c.fn.outs) [
    | none ↦ none
    | some pos ↦
        (let (ctx, types) = split_context (drop_receiver (is_some c.rcv) c.fn.ins) in
          some (record c { err_pos = pos; has_ctx = ctx; arg_types = types }))
  ]

  -- `server.stack`: the error that a panic turns into
  unfoldable pub stack : Text → Text → Outcome A
  unfolding new_error
  stack name p = fail err_internal (codes "RPC method " ++ name ++ codes " handler crashed: " ++ p)

  -- the receiver and the context stand before the arguments
  unfoldable pub full_args : Callback A → A → List A → List A
  full_args c ctx args =
      elim c.rcv [ none ↦ [] | some r ↦ r ∷ [] ] ++ ((if c.has_ctx then ctx ∷ [] else []) ++ args)

module _ {A : Type 0} (R : Reflect A) where
  -- `value2err`
  unfoldable pub value_to_err : A → Outcome (Option GoError)
  value_to_err v =
      if not (is_error_type (R.type_of v))
      then ok none
      else if not (R.is_valid v)
      then ok none
      else if R.is_zero v
      then ok none
      else elim (R.as_error v) [
        | none ↦ panic (codes "interface conversion")
        | some e ↦ ok (some e)
      ]

  -- `results[i]`
  unfoldable pub result_at : List A → ℕ → Outcome A
  result_at vs i = elim (get_elem? vs i) [
    | none ↦ panic (codes "index out of range")
    | some v ↦ ok v
  ]

  -- the error among the results; `none` as position is -1
  unfoldable pub check_error : Option ℕ → List A → Outcome (Option GoError)
  unfolding result_at value_to_err
  check_error none vs = ok none
  check_error (some i) vs = elim (result_at vs i) [
    | ok v ↦ value_to_err v
    | err e ↦ err e
    | panic p ↦ panic p
  ]

  -- what `call` makes of the results
  unfoldable pub answer_of : Option ℕ → List A → Outcome (Option A)
  unfolding check_error
  answer_of pos [] = ok none
  answer_of pos (v ∷ vs) = elim (check_error pos (v ∷ vs)) [
    | ok none ↦ (if R.is_valid v then ok (R.unwrap v) else ok none)
    | ok (some e) ↦ err e
    | err e ↦ err e
    | panic p ↦ panic p
  ]

  -- `call`
  unfoldable pub call : Callback A → A → List A → Effect (Option A)
  unfolding full_args answer_of stack
  call c ctx args =
      recover (stack c.method_name)
        (do results ← c.fn.run (full_args c ctx args); lift (answer_of c.err_pos results))
