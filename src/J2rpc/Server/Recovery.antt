-- ===== src/J2rpc/Server/Recovery.antt =====
-- Panics below and above the deferred recovery of `handle`.
use gof.Base.{
  ℕ, ◌≡◌, refl, ◌≢◌, ◌⊎◌, inl, inr, Bool, true, false, ◌||◌, Option, none, some, List, [], ◌∷◌,
  arith, if◌then◌else◌, Bool-cases, Option-cases, length, Text, codes, text_eq,
}
use gof.J2rpc.Error.{
  GoError, rpc, nil_rpc, token, forbidden, other, mute, error_text, bursts, Said-cases, Outcome, ok,
  err, panic, Outcome-cases,
}
use gof.Base.Int.{pos, ltb_int}
use gof.J2rpc.Http.{
  Writer, Request, is_written, accepts, max_request_content_length, validate_request,
}
use gof.J2rpc.Message.{Message, has_valid_id, methods, set_error, write_response}
use gof.J2rpc.Reflect.Effect.{Effect, continue, rescued}
use gof.J2rpc.Callback.{Callback, stack}
use gof.J2rpc.Middleware.{before_action}
use gof.J2rpc.Server.{Server, Libraries, format_name, get_callback}
use gof.J2rpc.Server.Serve.{
  run_callback, guarded, dispatch, finish, handle_names, handle_message, after_decode, handle,
  respond, nosniff, handler,
}

abbrev pub IsPanic : {A : Type 0} → Outcome A → Type 0
IsPanic (panic p) = Unit
IsPanic _ = ⊥

stack-ne-IsPanic : (A : Type 0) (name p : Text) → ¬ IsPanic (stack {A = A} name p)
unfolding stack
stack-ne-IsPanic A name p h = h

rescued-ne-IsPanic :
    {A : Type 0} (h : Text → Outcome A) (r : Outcome A)
    → ((p : Text) → ¬ IsPanic (h p))
    → ¬ IsPanic (rescued h r)
rescued-ne-IsPanic h (ok a) n = λ z. z
rescued-ne-IsPanic h (err e) n = λ z. z
rescued-ne-IsPanic h (panic p) n = n p

continue-ne-IsPanic :
    {A B : Type 0} (r : Outcome A) (f : A → Effect B) (w : Writer)
    → ¬ IsPanic r
    → ((a : A) (v : Writer) → ¬ IsPanic (f a v).0)
    → ¬ IsPanic (continue r f w).0
continue-ne-IsPanic (ok a) f w n h = h a w
continue-ne-IsPanic (err e) f w n h = λ z. z
continue-ne-IsPanic (panic p) f w n h = λ z. n z

get_callback-ne-IsPanic :
    {A : Type 0} (s : Server A) (ns m : Text) → ¬ IsPanic (get_callback s (ns ∷ m ∷ []))
get_callback-ne-IsPanic s ns m = elim (Outcome-cases (get_callback s (ns ∷ m ∷ []))) [
  | inl (c, e) ↦ rw e (λ z. z)
  | inr (inl (c, e)) ↦ rw e (λ z. z)
  | inr (inr (p, e)) ↦ (unfold get_callback in ground (arith, e))
]

methods_two :
    (msg : Message) (elem : List Text)
    → methods msg ≡ ok elem
    → (ns : Text) × (m : Text) × (elem ≡ ns ∷ m ∷ [])
methods_two msg elem h = two elem (unfold methods in ground (arith, h))
  where
    two : (l : List Text) → length l ≡ 2 → (ns : Text) × (m : Text) × (l ≡ ns ∷ m ∷ [])
    two [] e = absurd (omega arith)
    two (a ∷ []) e = absurd (omega arith)
    two (a ∷ b ∷ []) e = (a, b, refl)
    two (a ∷ b ∷ c ∷ l) e = absurd (omega arith)

-- an error of the checks, if there is one, has a text
record IsVoiced (o : Option (ℕ × GoError)) : Type 0 where
  voice : (code : ℕ) (e : GoError) (p : Text) → o ≡ some (code, e) → error_text e ≢ bursts p

none-IsVoiced : IsVoiced none
none-IsVoiced = record { voice = λ code e p h. cc }

other-IsVoiced : (c : ℕ) (t : Text) → IsVoiced (some (c, other t))
unfolding error_text
other-IsVoiced c t = record { voice = λ code e p h. λ q. ground (arith, h, q) }

if-IsVoiced :
    (b : Bool) (x y : Option (ℕ × GoError))
    → IsVoiced x
    → IsVoiced y
    → IsVoiced (if b then x else y)
if-IsVoiced true x y h k = h
if-IsVoiced false x y h k = k

validate_request-IsVoiced :
    (parse : Text → Option Text) (r : Request) → IsVoiced (validate_request parse r)
unfolding validate_request
validate_request-IsVoiced parse r =
    if-IsVoiced (text_eq r.method (codes "PUT") || text_eq r.method (codes "DELETE")) _ _
      (other-IsVoiced 405 (codes "method not allowed"))
      (if-IsVoiced (ltb_int (pos max_request_content_length) r.content_length) _ _
        (other-IsVoiced 413 _)
        (if-IsVoiced (text_eq r.method (codes "OPTIONS")) _ _ none-IsVoiced
          (if-IsVoiced (accepts parse r.content_type) _ _ none-IsVoiced (other-IsVoiced 415 _))))

module _ {A : Type 0} (L : Libraries A) where
  -- Whatever the decoder, the callback and the encoder do, the guarded end of `handle` does not
  -- panic.
  run_callback-ne-IsPanic :
      (c : Callback A) (ctx : A) (params : Text) (w : Writer)
      → ¬ IsPanic (run_callback L c ctx params w).0
  unfolding run_callback
  run_callback-ne-IsPanic c ctx params w =
      rescued-ne-IsPanic (stack c.method_name) _ (stack-ne-IsPanic (Option Text) c.method_name)

  module _ (s : Server A) (ctx wr req : A) where
    -- no middleware of the server panics, whatever the method
    abbrev pub CalmMiddleware : Type 0
    CalmMiddleware =
        (method : Text) (w : Writer)
        → ¬ IsPanic
            (before_action L.reflect L.regexp s.before_mid method
              (ctx ∷ L.reflect.of_text method ∷ wr ∷ req ∷ []) w).0

    guarded-ne-IsPanic :
        (c : Callback A) (params : Text) (found : Option GoError) (w : Writer)
        → ¬ IsPanic (guarded L c ctx params found w).0
    unfolding guarded
    guarded-ne-IsPanic c params none w = run_callback-ne-IsPanic c ctx params w
    guarded-ne-IsPanic c params (some e) w = λ z. z

    dispatch-ne-IsPanic :
        (ns m method params : Text) (w : Writer)
        → CalmMiddleware
        → ¬ IsPanic (dispatch L s ctx wr req (ns ∷ m ∷ []) method params w).0
    unfolding dispatch
    dispatch-ne-IsPanic ns m method params w calm =
        continue-ne-IsPanic (get_callback s (ns ∷ m ∷ [])) _ w (get_callback-ne-IsPanic s ns m)
          λ c v.
            continue-ne-IsPanic _ _ _ (calm method v)
              (λ found u. guarded-ne-IsPanic c params found u)

    finish-ne-IsPanic :
        (msg : Message) (r : Outcome (Option Text)) → ¬ IsPanic r → ¬ IsPanic (finish L msg r).1
    unfolding finish
    finish-ne-IsPanic msg (ok a) n = λ z. z
    finish-ne-IsPanic msg (err e) n = λ z. z
    finish-ne-IsPanic msg (panic p) n = λ z. n z

    handle_names-ne-IsPanic :
        (msg : Message) (ns m : Text) (w : Writer)
        → CalmMiddleware
        → ¬ IsPanic (handle_names L s ctx wr req msg (ns ∷ m ∷ []) w).0.1
    unfolding handle_names
    handle_names-ne-IsPanic msg ns m w calm =
        finish-ne-IsPanic _ _
          (dispatch-ne-IsPanic (format_name s ns) (format_name s m) _ msg.params w calm)

    handle_message-ne-IsPanic :
        (msg : Message) (w : Writer)
        → CalmMiddleware
        → ¬ IsPanic (handle_message L s ctx wr req msg w).0.1
    handle_message-ne-IsPanic msg w calm = elim (Bool-cases (has_valid_id msg)) [
      | inr f ↦ (unfold handle_message in rw f (λ z. z))
      | inl v ↦ elim (Outcome-cases (methods msg)) [
        | inl (elem, e) ↦
            (let (ns, m, q) = methods_two msg elem e in
              unfold handle_message in rw (v, e, q) (handle_names-ne-IsPanic msg ns m w calm))
        | inr (inl (e, q)) ↦ (unfold handle_message in rw (v, q) (λ z. z))
        | inr (inr (p, q)) ↦ (unfold handle_message methods in ground (arith, q))
      ]
    ]

    handle-ne-IsPanic :
        (r : Request) (w : Writer) → CalmMiddleware → ¬ IsPanic (handle L s ctx wr req r w).0.1
    handle-ne-IsPanic r w calm = elim (Option-cases (L.decode r.body r.body_broken).1) [
      | inl e ↦
          (unfold handle in
            rw (e, after_decode)
              (handle_message-ne-IsPanic (L.decode r.body r.body_broken).0 w calm))
      | inr (t, e) ↦ (unfold handle in rw (e, after_decode) (λ z. z))
    ]

    -- What is asked of the encoder of messages: it does not panic, and its errors have a text.
    pub record CalmEncoder : Type 0 where
      pub returns : (m : Message) → ¬ IsPanic (L.marshal m)
      pub speaks :
          (m : Message) (e : GoError) (p : Text) → L.marshal m ≡ err e → error_text e ≢ bursts p

    write_response_ok :
        (msg : Message) (w : Writer) → CalmEncoder → (write_response L.marshal msg w).0 ≡ ok tt
    write_response_ok msg w n = elim (Outcome-cases (L.marshal msg)) [
      | inl (t, e) ↦ (unfold write_response in ground (arith, e))
      | inr (inl (x, e)) ↦ elim (Said-cases (error_text x)) [
        | inl (t, z) ↦ (unfold write_response in ground (arith, e, z))
        | inr (p, z) ↦ absurd (n.speaks msg x p e z)
      ]
      | inr (inr (p, e)) ↦ absurd (n.returns msg (rw e tt))
    ]

    -- How `Handler` may end: it returns, or the error that `handle` gave it panics in its own method
    -- `Error`.
    abbrev Ends : Outcome (Unit {0}) → Outcome (Unit {0}) → Type 0
    Ends given out = (out ≡ ok tt) ⊎ ((p : Text) × (given ≡ err (mute p)) × (out ≡ panic p))

    respond_error :
        (msg : Message) (e : GoError) (w : Writer)
        → CalmEncoder
        → Ends (err e) (respond L (msg, err e) w).0
    unfolding respond set_error
    respond_error msg (rpc e) w n = inl (write_response_ok _ w n)
    respond_error msg nil_rpc w n = inl (write_response_ok _ w n)
    respond_error msg (token t) w n = inl (write_response_ok _ w n)
    respond_error msg (forbidden t) w n = inl (write_response_ok _ w n)
    respond_error msg (other t) w n = inl (write_response_ok _ w n)
    respond_error msg (mute p) w n = inr (p, refl, refl)

    respond-Ends :
        (msg : Message) (out : Outcome (Unit {0})) (w : Writer)
        → ¬ IsPanic out
        → CalmEncoder
        → Ends out (respond L (msg, out) w).0
    respond-Ends msg (ok u) w h n = inl (unfold respond in write_response_ok _ w n)
    respond-Ends msg (err e) w h n = respond_error msg e w n
    respond-Ends msg (panic p) w h n = absurd (h tt)

    -- If no middleware panics, and the encoder of messages does not panic and gives only errors that
    -- have a text, `Handler` returns on every request, with one exception: no panic of a callback, of
    -- the decoder of arguments or of the encoder of results gets out, but when `handle` ends with an
    -- error whose own method `Error` panics, `Handler` panics with that.
    pub handler_returns :
        (r : Request) (w : Writer)
        → CalmMiddleware
        → CalmEncoder
        → ((handler L s ctx wr req r w).0 ≡ ok tt)
          ⊎ ((p : Text) × ((handle L s ctx wr req r (nosniff w)).0.1 ≡ err (mute p))
              × ((handler L s ctx wr req r w).0 ≡ panic p))
    handler_returns r w calm n = elim (Bool-cases s.run) [
      | inr f ↦ inl (unfold handler in ground (arith, f))
      | inl t ↦ elim (Bool-cases (is_written w)) [
        | inl z ↦ inl (unfold handler in ground (arith, t, z))
        | inr z ↦ elim (Option-cases (validate_request L.parse_media_type r)) [
          | inr ((code, x), e) ↦ elim (Said-cases (error_text x)) [
            | inl (said, q) ↦ inl (unfold handler in ground (arith, t, z, e, q))
            | inr (p, q) ↦
                absurd ((validate_request-IsVoiced L.parse_media_type r).voice code x p e q)
          ]
          | inl e ↦
              (let h =
                  respond-Ends (handle L s ctx wr req r (nosniff w)).0.0 _
                    (handle L s ctx wr req r (nosniff w)).1 (handle-ne-IsPanic r (nosniff w) calm)
                    n in
                elim h [
                  | inl q ↦ inl (unfold handler in ground (arith, t, z, e, q))
                  | inr (p, g, q) ↦ inr (p, g, (unfold handler in ground (arith, t, z, e, q)))
                ])
        ]
      ]
    ]
