-- ===== src/J2rpc/Middleware/Chain.antt =====
-- The order in which middlewares run, and what stops them.
use gof.Base.{◌≡◌, refl, sym, ◌∙◌, Bool, Option, none, some, List, [], ◌∷◌, ◌++◌, Text}
use gof.J2rpc.Error.{GoError, Outcome}
use gof.J2rpc.Http.{Writer}
use gof.J2rpc.Reflect.{Reflect}
use gof.J2rpc.Reflect.Effect.{Effect, lift, bind_assoc, bind_cong, ◌>>=◌}
use gof.J2rpc.Middleware.{MiddleInfo, get_match_function, func_action, before_action, unless_found}

unless_found-append :
    (k m n : Effect (Option GoError)) (o : Option GoError) (w : Writer)
    → ((v : Writer) → k v ≡ (m >>= unless_found n) v)
    → unless_found k o w ≡ (unless_found m o >>= unless_found n) w
unless_found-append k m n none w h = h w
unless_found-append k m n (some e) w h = refl

module _ {A : Type 0} (R : Reflect A) (regexp : Text → Text → Outcome Bool) where
  -- Middlewares run in the order in which they were added: running two lists in a row is running
  -- the first, and then the second unless the first left with an error or a panic.
  pub before_action-append :
      (xs ys : List (MiddleInfo A)) (method : Text) (args : List A) (w : Writer)
      → before_action R regexp (xs ++ ys) method args w
        ≡ (before_action R regexp xs method args
              >>= unless_found (before_action R regexp ys method args))
            w
  unfolding before_action
  before_action-append [] ys method args w = refl
  before_action-append (x ∷ xs) ys method args w =
      bind_cong (lift (get_match_function regexp x method)) _ _ w (λ fn v.
        bind_cong (func_action R fn args) _ _ v (λ o u.
          unless_found-append _ (before_action R regexp xs method args) _ o u
            (λ z. before_action-append xs ys method args z))
        ∙ sym (bind_assoc (func_action R fn args) _ _ v))
      ∙ sym (bind_assoc (lift (get_match_function regexp x method)) _ _ w)
