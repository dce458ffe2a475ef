-- ===== src/J2rpc/Server/Codes.antt =====
-- The error of each way in which a request fails.
use gof.Base.{◌≡◌, ◌∙◌, true, false, none, some, List, [], ◌∷◌, ◌++◌, arith, Text, codes}
use gof.J2rpc.Error.{
  GoError, ok, err, panic, fail, error_text, says, err_parse, err_invalid_request, err_no_method,
  err_bad_params, err_internal,
}
use gof.J2rpc.Http.{Writer, Request}
use gof.J2rpc.Message.{Message, has_valid_id, methods}
use gof.J2rpc.Names.{join, dot}
use gof.J2rpc.Names.Paths.{LacksDot, split_two_lacks, split_two-dot}
use gof.J2rpc.Callback.{Callback, call, full_args}
use gof.J2rpc.Args.{positional}
use gof.J2rpc.Server.{Server, Libraries, format_name, get_callback}
use gof.J2rpc.Server.Serve.{run_callback, dispatch, handle_names, handle_message, handle}

module _ {A : Type 0} (L : Libraries A) (s : Server A) (ctx wr req : A) (r : Request)
    (w : Writer) where
  -- A body that does not decode gives the parse error with the decoder's text, and nothing runs.
  pub handle_parse_error :
      (t : Text)
      → (L.decode r.body r.body_broken).1 ≡ some t
      → handle L s ctx wr req r w ≡ (((L.decode r.body r.body_broken).0, fail err_parse t), w)
  unfolding handle
  handle_parse_error t e = ground (arith, e)

  module _ (decodes : (L.decode r.body r.body_broken).1 ≡ none) where
    abbrev msg : Message
    msg = (L.decode r.body r.body_broken).0

    handle_decoded : handle L s ctx wr req r w ≡ handle_message L s ctx wr req msg w
    unfolding handle
    handle_decoded = ground (arith, decodes)

    -- An id that is absent, an object or an array gives the invalid request error.
    pub handle_invalid_id :
        has_valid_id msg ≡ false
        → handle L s ctx wr req r w ≡ ((msg, fail err_invalid_request (codes "id is invalid")), w)
    handle_invalid_id e = handle_decoded ∙ (unfold handle_message in rw e)

    -- A method with no dot in it gives the method error.
    pub handle_wrong_method :
        has_valid_id msg ≡ true
        → LacksDot msg.method
        → handle L s ctx wr req r w ≡ ((msg, fail err_no_method (codes "wrong method")), w)
    handle_wrong_method v h =
        handle_decoded
        ∙ (unfold handle_message methods in ground (arith, v, split_two_lacks [] msg.method h))

    names_of :
        (ns m : Text) → LacksDot ns → msg.method ≡ ns ++ dot ∷ m → methods msg ≡ ok (ns ∷ m ∷ [])
    unfolding methods
    names_of ns m h e = ground (arith, e, split_two-dot [] ns m h)

    -- In a request that decodes and has a valid id, a method `ns.m` whose namespace and method,
    -- once formatted, are not found gives the method error, and nothing is written.
    pub handle_no_callback :
        (ns m text : Text)
        → has_valid_id msg ≡ true
        → LacksDot ns
        → msg.method ≡ ns ++ dot ∷ m
        → get_callback s (format_name s ns ∷ format_name s m ∷ []) ≡ fail err_no_method text
        → handle L s ctx wr req r w ≡ (
          (
            record msg { method = join (format_name s ns ∷ format_name s m ∷ []) },
            fail err_no_method text,
          ),
          w,
        )
    handle_no_callback ns m text v h e g =
        handle_decoded
        ∙ (unfold handle_message handle_names dispatch in ground (arith, v, names_of ns m h e, g))

module _ {A : Type 0} (L : Libraries A) (c : Callback A) (ctx : A) (params : Text)
    (w : Writer) where
  -- Parameters that are not accepted give the parameter error with the text of the refusal, and
  -- the function is not called: nothing is written.
  pub run_callback_bad_params :
      (e : GoError) (t : Text)
      → positional L.reflect (L.tokens params) c.arg_types ≡ err e
      → error_text e ≡ says t
      → run_callback L c ctx params w ≡ (fail err_bad_params t, w)
  unfolding run_callback
  run_callback_bad_params e t h g = ground (arith, h, g)

  -- With parameters that are accepted, a function that panics gives the internal error, which names
  -- the method and what it panicked with; what it wrote before stays written.
  pub run_callback_crash :
      (args : List A) (p : Text) (w' : Writer)
      → positional L.reflect (L.tokens params) c.arg_types ≡ ok args
      → c.fn.run (full_args c ctx args) w ≡ (panic p, w')
      → run_callback L c ctx params w ≡ (
        fail err_internal (codes "RPC method " ++ c.method_name ++ codes " handler crashed: " ++ p),
        w',
      )
  unfolding run_callback call
  run_callback_crash args p w' h q = ground (arith, h, q)
