-- ===== src/J2rpc/Args/Count.antt =====
-- How many arguments a callback is called with, and which.
use gof.Base.{
  ℕ, suc, ◌+◌, ◌≤◌, ◌≡◌, refl, ap, ◌∙◌, ◌≢◌, inl, inr, Bool, true, Option, none, some, List, [],
  ◌∷◌, ◌++◌, append_assoc, append-nil, arith, if◌then◌else◌, length, Text,
}
use gof.J2rpc.Error.{error_text, Said-cases, GoError, ok, Outcome-cases}
use gof.J2rpc.Reflect.{GoType, Reflect}
use gof.J2rpc.Args.{Tokens, eof, null, bad, scalar, array, argument_array, fill, positional}
use gof.J2rpc.Callback.{
  Callback, make_arg_types, split_context, result_shape, full_args, is_some, drop_receiver,
}

module _ {A : Type 0} (R : Reflect A) where
  -- the elements were decoded one by one, each at the type of its place
  pub data Decoded : List Text → List GoType → List A → Type 0 where
    done : {ts : List GoType} → Decoded [] ts []
    more :
        {x : Text} {xs : List Text} {t : GoType} {ts : List GoType} {v : A} {vs : List A}
        → R.decode t x ≡ ok v
        → Decoded xs ts vs
        → Decoded (x ∷ xs) (t ∷ ts) (v ∷ vs)

  length-fill :
      (args : List A) (ts : List GoType)
      → length args ≤ length ts
      → length (fill R args ts) ≡ length ts
  unfolding fill
  length-fill [] [] h = refl
  length-fill (a ∷ args) [] h = absurd (omega arith)
  length-fill [] (t ∷ ts) h = omega (arith, length-fill [] ts (omega arith))
  length-fill (a ∷ args) (t ∷ ts) h = omega (arith, length-fill args ts (omega arith))

  argument_array-Decoded :
      (n i : ℕ) (xs : List Text) (end : Option GoError) (ts : List GoType) (args : List A)
      {out : List A}
      → argument_array R n i xs end ts args ≡ ok out
      → (vs : List A) × Decoded xs ts vs × (out ≡ args ++ vs)
  unfolding argument_array
  argument_array-Decoded n i [] none ts args h = ([], done, ground (arith, append-nil args))
  argument_array-Decoded n i [] (some e) ts args h = cc
  argument_array-Decoded n i (x ∷ xs) end [] args h = cc
  argument_array-Decoded n i (x ∷ xs) end (t ∷ ts) args h = elim (Outcome-cases (R.decode t x)) [
    | inl (v, e) ↦
        (let (vs, d, q) =
            argument_array-Decoded n (i + 1) xs end ts (args ++ v ∷ [])
              (rw (e, argument_array) at h) in
          (v ∷ vs, more e d, q ∙ append_assoc args (v ∷ []) vs))
    | inr (inl (e, q)) ↦ elim (Said-cases (error_text e)) [
      | inl (t, z) ↦ ground (arith, q, z)
      | inr (p, z) ↦ ground (arith, q, z)
    ]
    | inr (inr (p, q)) ↦ ground (arith, q)
  ]

  length-Decoded :
      {xs : List Text} {ts : List GoType} {vs : List A}
      → Decoded xs ts vs
      → (length vs ≡ length xs) × (length xs ≤ length ts)
  length-Decoded done = omega arith
  length-Decoded (more e d) = let (p, q) = length-Decoded d in omega arith

  -- If the parameters are an array and are accepted, every element was decoded at the type of its
  -- place, there are no more elements than types, and the arguments are the decoded values with
  -- the missing ones filled in.
  pub positional_sound :
      (xs : List Text) (end : Option GoError) (ts : List GoType) {args : List A}
      → positional R (array xs end) ts ≡ ok args
      → (vs : List A) × Decoded xs ts vs × (length xs ≤ length ts) × (args ≡ fill R vs ts)
  unfolding positional
  positional_sound xs end ts h =
      elim (Outcome-cases (argument_array R (length ts) 0 xs end ts [])) [
        | inl (vs, e) ↦
            (let (us, d, q) = argument_array-Decoded (length ts) 0 xs end ts [] e in
              (us, d, (length-Decoded d).1, ground (arith, e, q)))
        | inr (inl (e, q)) ↦ ground (arith, q)
        | inr (inr (p, q)) ↦ ground (arith, q)
      ]

  -- Whatever the parameters are, if they are accepted there is one argument for each type.
  pub length-positional :
      (tokens : Tokens) (ts : List GoType) {args : List A}
      → positional R tokens ts ≡ ok args
      → length args ≡ length ts
  length-positional eof ts h = unfold positional in ground (arith, length-fill [] ts (omega arith))
  length-positional null ts h = unfold positional in ground (arith, length-fill [] ts (omega arith))
  length-positional (bad e) ts h = unfold positional in cc
  length-positional scalar ts h = unfold positional in cc
  length-positional (array xs end) ts h =
      let (vs, d, q, e) = positional_sound xs end ts h in
      let (a, b) = length-Decoded d in ap length e ∙ length-fill vs ts (omega arith)

length-split_context :
    (ts : List GoType) (b : Bool) (rest : List GoType)
    → split_context ts ≡ (b, rest)
    → (if b then 1 else 0) + length rest ≡ length ts
unfolding split_context
length-split_context [] b rest h = ground arith
length-split_context (t ∷ ts) b rest h = ground arith

length_behind : (ts : List GoType) → ts ≢ [] → suc (length (drop_receiver true ts)) ≡ length ts
length_behind [] h = absurd (h refl)
length_behind (t ∷ ts) h = refl

module _ {A : Type 0} where
  -- what `makeArgTypes` sets and what it leaves
  pub record Typed (c c' : Callback A) : Type 0 where
    pub name : c'.method_name ≡ c.method_name
    pub rcv : c'.rcv ≡ c.rcv
    pub fn : c'.fn ≡ c.fn
    pub params : split_context (drop_receiver (is_some c.rcv) c.fn.ins) ≡ (c'.has_ctx, c'.arg_types)
    pub results : result_shape c.fn.outs ≡ some c'.err_pos

  pub make_arg_types-Typed :
      (c : Callback A) {c' : Callback A} → make_arg_types c ≡ some c' → Typed c c'
  unfolding make_arg_types
  make_arg_types-Typed c h = record {
    name = ground arith;
    rcv = ground arith;
    fn = ground arith;
    params = ground arith;
    results = ground arith;
  }

  -- A call of a callback that was made of a method with a receiver, with one argument for each of
  -- the callback's types, hands the function as many arguments as it has parameters.
  pub length-full_args :
      (c : Callback A) {c' : Callback A} (rcv ctx : A) (args : List A)
      → c.rcv ≡ some rcv
      → c.fn.ins ≢ []
      → make_arg_types c ≡ some c'
      → length args ≡ length c'.arg_types
      → length (full_args c' ctx args) ≡ length c'.fn.ins
  unfolding full_args
  length-full_args c {c'} rcv ctx args hr hi h hl =
      let T = make_arg_types-Typed c h in
      let ps : split_context (drop_receiver true c.fn.ins) ≡ (c'.has_ctx, c'.arg_types) =
        rw hr at T.params in
      let n = length-split_context (drop_receiver true c.fn.ins) c'.has_ctx c'.arg_types ps in
      ground (arith, n, T.rcv, T.fn, hr, hl, length_behind c.fn.ins hi)
