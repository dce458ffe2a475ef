-- ===== src/J2rpc/Message/Output.antt =====
-- What a response message holds.
use gof.Base.{ℕ, ◌≡◌, refl, ◌≢◌, inl, inr, true, [], ◌∷◌, arith, Bool-cases, Text, codes}
use gof.Base.Dict.{get-put_self}
use gof.J2rpc.Error.{error_text, Said-cases, Outcome, ok, panic, Outcome-cases}
use gof.J2rpc.Http.{
  Writer, is_written, header_get, header_set, status_written, send, body, abort_write_header,
  write_error,
}
use gof.J2rpc.Message.{Message, vsn, or_one, output, write_response}

-- what every response has
pub record IsResponse (m : Message) : Type 0 where
  pub version : m.version ≡ vsn
  pub has_id : m.id ≢ []
  pub no_method : m.method ≡ []
  pub no_params : m.params ≡ []

or_one-ne-nil : (i : Text) → or_one i ≢ []
unfolding or_one
or_one-ne-nil [] e = cc
or_one-ne-nil (c ∷ s) e = cc

pub output-IsResponse : (m : Message) → IsResponse (output m)
unfolding output
output-IsResponse m = record {
  version = refl;
  has_id = or_one-ne-nil m.id;
  no_method = refl;
  no_params = refl;
}

is_written-abort :
    (text : Text) (code : ℕ) (w : Writer)
    → is_written (send (body text) (abort_write_header code w)) ≡ true
unfolding is_written header_get send abort_write_header header_set
is_written-abort text code w = ground (arith, get-put_self status_written (codes "1") w.header)

module _ (marshal : Message → Outcome Text) where
  is_written-write_response :
      (m : Message) (w : Writer)
      → ((p : Text) → (write_response marshal m w).0 ≢ panic p)
      → is_written (write_response marshal m w).1 ≡ true
  is_written-write_response m w calm = elim (Bool-cases (is_written w)) [
    | inl t ↦ (unfold write_response in ground (arith, t))
    | inr f ↦ elim (Outcome-cases (marshal m)) [
      | inl (t, e) ↦
          (unfold write_response write_error in
            ground (
              arith,
              f,
              e,
              is_written-abort t 200
                  (header_set (codes "Content-Type") (codes "application/json; charset=utf-8") w),
            ))
      | inr (inl (x, e)) ↦ elim (Said-cases (error_text x)) [
        | inl (t, z) ↦
            (unfold write_response write_error in
              ground (
                arith,
                f,
                e,
                z,
                is_written-abort t 500
                    (header_set (codes "Content-Type") (codes "text/plain; charset=utf-8") w),
              ))
        | inr (p, z) ↦ absurd (calm p (unfold write_response in ground (arith, f, e, z)))
      ]
      | inr (inr (p, e)) ↦ absurd (calm p (unfold write_response in ground (arith, f, e)))
    ]
  ]

  -- A response is written at most once: after one that did not panic, writing any other changes
  -- nothing.
  pub write_response_once :
      (m n : Message) (w : Writer)
      → ((p : Text) → (write_response marshal m w).0 ≢ panic p)
      → write_response marshal n (write_response marshal m w).1
        ≡ (ok tt, (write_response marshal m w).1)
  write_response_once m n w calm =
      let t = is_written-write_response m w calm in unfold write_response in ground (arith, t)
