-- ===== src/J2rpc/Http/Validate.antt =====
-- Which requests `validateRequest` lets through.
use gof.Base.{ℕ, ◌≡◌, ◌≢◌, ◌↔◌, ◌⊎◌, true, Option, none, some, arith, Text, codes, text_eq_iff}
use gof.Base.Int.{◌≤ℤ◌, pos}
use gof.J2rpc.Error.{GoError}
use gof.J2rpc.Http.{Request, accepts, validate_request, max_request_content_length}

-- what a request must be to reach the decoder
pub record IsServable (parse : Text → Option Text) (r : Request) : Type 0 where
  pub not_put : r.method ≢ codes "PUT"
  pub not_delete : r.method ≢ codes "DELETE"
  pub fits : r.content_length ≤ℤ pos max_request_content_length
  pub typed : (r.method ≡ codes "OPTIONS") ⊎ (accepts parse r.content_type ≡ true)

-- A request is let through exactly when its method is neither PUT nor DELETE, its declared length
-- is within the limit, and it is an OPTIONS request or its media type is accepted.
pub validate_request-IsServable :
    (parse : Text → Option Text) (r : Request)
    → (validate_request parse r ≡ none) ↔ IsServable parse r
unfolding validate_request
validate_request-IsServable parse r = (
  (λ h. record {
    not_put = ground (arith, text_eq_iff r.method (codes "PUT"));
    not_delete = ground (arith, text_eq_iff r.method (codes "DELETE"));
    fits = ground arith;
    typed = ground (arith, text_eq_iff r.method (codes "OPTIONS"));
  }),
  (λ v. ground (
    arith,
    v.fits,
    text_eq_iff r.method (codes "PUT"),
    text_eq_iff r.method (codes "DELETE"),
    text_eq_iff r.method (codes "OPTIONS"),
    v.not_put,
    v.not_delete,
    v.typed,
  )),
)

-- Every refusal answers with status 405, 413 or 415.
pub validate_request_status :
    (parse : Text → Option Text) (r : Request) {c : ℕ} {e : GoError}
    → validate_request parse r ≡ some (c, e)
    → (c ≡ 405) ⊎ (c ≡ 413) ⊎ (c ≡ 415)
unfolding validate_request
validate_request_status parse r h = ground arith
