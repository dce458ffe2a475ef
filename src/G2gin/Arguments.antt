-- ===== src/G2gin/Arguments.antt =====
-- How many arguments a handler's function is called with.
use gof.Base.{ℕ, ◌+◌, ◌≤◌, ◌<◌, ◌≡◌, inl, inr, some, List, [], ◌∷◌, arith, length, codes}
use gof.J2rpc.Error.{Outcome, ok, err, panic, Outcome-cases}
use gof.J2rpc.Reflect.{GoType, Reflect}
use gof.G2gin.{
  Parameter, context, pointer, aggregate, scalar, func, bind_args, reflect_call,
  parse_argument_from_context, answer, bad_request, gin_handler,
}

-- how many parameters are of a type that is bound
unfoldable pub bound : List Parameter → ℕ
bound [] = 0
bound (context ∷ ps) = bound ps + 1
bound (pointer t ∷ ps) = bound ps + 1
bound (aggregate t ∷ ps) = bound ps + 1
bound (scalar t ∷ ps) = bound ps

bound-le-length : (ps : List Parameter) → bound ps ≤ length ps
unfolding bound
bound-le-length [] = omega arith
bound-le-length (context ∷ ps) = omega (arith, bound-le-length ps)
bound-le-length (pointer t ∷ ps) = omega (arith, bound-le-length ps)
bound-le-length (aggregate t ∷ ps) = omega (arith, bound-le-length ps)
bound-le-length (scalar t ∷ ps) = omega (arith, bound-le-length ps)

module _ {A : Type 0} (bind : ℕ → GoType → Outcome A) (c : A) where
  pub length-bind_args :
      (n : ℕ) (ps : List Parameter) (args : List A)
      → bind_args bind c n ps ≡ ok args
      → length args ≡ bound ps
  unfolding bind_args bound
  length-bind_args n [] args h = ground (arith, h)
  length-bind_args n (context ∷ ps) args h = elim (Outcome-cases (bind_args bind c n ps)) [
    | inl (some_args, e) ↦
        (let len = length-bind_args n ps some_args e in ground (arith, h, e, len))
    | inr (inl (x, e)) ↦ (ground (arith, h, e))
    | inr (inr (p, e)) ↦ (ground (arith, h, e))
  ]
  length-bind_args n (pointer t ∷ ps) args h = elim (Outcome-cases (bind_args bind c (n + 1) ps)) [
    | inl (some_args, e) ↦
        (let len = length-bind_args (n + 1) ps some_args e in
          ground (arith, h, e, len, Outcome-cases (bind n t)))
    | inr (inl (x, e)) ↦ (ground (arith, h, e, Outcome-cases (bind n t)))
    | inr (inr (p, e)) ↦ (ground (arith, h, e, Outcome-cases (bind n t)))
  ]
  length-bind_args n (aggregate t ∷ ps) args h =
      elim (Outcome-cases (bind_args bind c (n + 1) ps)) [
        | inl (some_args, e) ↦
            (let len = length-bind_args (n + 1) ps some_args e in
              ground (arith, h, e, len, Outcome-cases (bind n t)))
        | inr (inl (x, e)) ↦ (ground (arith, h, e, Outcome-cases (bind n t)))
        | inr (inr (p, e)) ↦ (ground (arith, h, e, Outcome-cases (bind n t)))
      ]
  length-bind_args n (scalar t ∷ ps) args h = length-bind_args n ps args h

module _ {A : Type 0} (R : Reflect A) (bind : ℕ → GoType → Outcome A) (c : A) where
  -- A function of at most two parameters whose arguments bind, and one of whose parameters is neither a
  -- context nor a pointer, struct, map or slice, is never called: every request panics.
  pub gin_handler_scalar :
      (ps : List Parameter) (run : List A → Outcome (List A)) (args : List A)
      → length ps ≤ 2
      → bind_args bind c 0 ps ≡ ok args
      → bound ps < length ps
      → gin_handler R bind c (func ps run)
        ≡ panic (codes "reflect: Call with too few input arguments")
  gin_handler_scalar ps run args small h few =
      let n = length-bind_args bind c 0 ps args h in
      unfold gin_handler parse_argument_from_context reflect_call in ground (arith, h, n)

  -- With at most two parameters, all of types that are bound, and arguments that bind, the function is
  -- called once with one argument for each parameter, and the response is 200 with its answer, or 400 with
  -- the text of its error, or its panic, or that of its error's method `Error`.
  pub gin_handler_calls :
      (ps : List Parameter) (run : List A → Outcome (List A)) (args : List A)
      → length ps ≤ 2
      → bind_args bind c 0 ps ≡ ok args
      → bound ps ≡ length ps
      → (length args ≡ length ps)
        × (gin_handler R bind c (func ps run) ≡ elim (run args) [
          | panic p ↦ panic p
          | err e ↦ bad_request e
          | ok results ↦ elim (answer R results) [
            | panic p ↦ panic p
            | err e ↦ bad_request e
            | ok v ↦ ok (record { code = 200; msg = []; payload = some v })
          ]
        ])
  gin_handler_calls ps run args small h all =
      let n = length-bind_args bind c 0 ps args h in
      (
        ground (arith, n, all),
        (unfold gin_handler parse_argument_from_context reflect_call in ground (arith, h, n, all)),
      )
