-- ===== src/J2rpc/Error.antt =====
-- j2rpc/error.go: error codes and the kinds of `error` that the server tells apart.
use gof.Base.{◌≡◌, refl, ◌⊎◌, inl, inr, Option, none, some, List, [], ◌∷◌, Text, codes}
use gof.Base.Int.{ℤ, pos, negsuc}

abbrev pub err_parse : ℤ
err_parse = negsuc 32699

abbrev pub err_invalid_request : ℤ
err_invalid_request = negsuc 32599

abbrev pub err_no_method : ℤ
err_no_method = negsuc 32600

abbrev pub err_bad_params : ℤ
err_bad_params = negsuc 32601

abbrev pub err_internal : ℤ
err_internal = negsuc 32602

abbrev pub err_server : ℤ
err_server = negsuc 31999

abbrev pub err_authorization : ℤ
err_authorization = pos 401

abbrev pub err_forbidden : ℤ
err_forbidden = pos 403

-- `Error`; `payload` is the field `Data`
pub record RpcError : Type 0 where
  pub code : ℤ
  pub message : Text
  pub payload : Option Text

-- `NewError`: of the optional values the first is kept
unfoldable pub new_error : ℤ → Text → List Text → RpcError
new_error code message [] = record { code = code; message = message; payload = none }
new_error code message (d ∷ ds) = record { code = code; message = message; payload = some d }

-- A Go `error` by its dynamic type: a pointer to `Error`, which may be nil, and those that j2rpc names.
-- `other` is any other type, by the text that its method `Error` gives, and `mute` one whose method
-- panics, with the text of the panic.
pub data GoError : Type 0 where
  rpc : RpcError → GoError
  nil_rpc : GoError
  token : Text → GoError
  forbidden : Text → GoError
  other : Text → GoError
  mute : Text → GoError

-- how a call of the method `Error` ends
pub data Said : Type 0 where
  says : Text → Said
  bursts : Text → Said

pub Said-cases : (r : Said) → ((t : Text) × (r ≡ says t)) ⊎ ((p : Text) × (r ≡ bursts p))
Said-cases (says t) = inl (t, refl)
Said-cases (bursts p) = inr (p, refl)

abbrev pub nil_pointer : Text
nil_pointer = codes "runtime error: invalid memory address or nil pointer dereference"

-- the method `Error`
unfoldable pub error_text : GoError → Said
error_text (rpc e) = says e.message
error_text nil_rpc = bursts nil_pointer
error_text (token t) = says t
error_text (forbidden t) = says t
error_text (other t) = says t
error_text (mute p) = bursts p

-- how a Go call ends; a panic carries the text of its value
pub data Outcome {ℓ} (A : Type ℓ) : Type ℓ where
  ok : A → Outcome A
  err : GoError → Outcome A
  panic : Text → Outcome A

abbrev pub fail {ℓ} : {A : Type ℓ} → ℤ → Text → Outcome A
fail code message = err (rpc (new_error code message []))

-- To split on how a call ended and keep the equation.
pub Outcome-cases {ℓ} :
    {A : Type ℓ} (r : Outcome A)
    → ((a : A) × (r ≡ ok a)) ⊎ ((e : GoError) × (r ≡ err e)) ⊎ ((p : Text) × (r ≡ panic p))
Outcome-cases (ok a) = inl (a, refl)
Outcome-cases (err e) = inr (inl (e, refl))
Outcome-cases (panic p) = inr (inr (p, refl))
