-- ===== src/J2rpc/Server/Serve.antt =====
-- j2rpc/j2rpc.go: the handling of one request, from the checks to the response.
use gof.Base.{
  Bool, false, not, ◌&&◌, Option, none, some, List, [], ◌∷◌, map, ◌==◌, if◌then◌else◌, Text, codes,
  text_eq,
}
use gof.Base.Int.{ℤ, pos, negsuc}
use gof.J2rpc.Error.{
  GoError, error_text, says, bursts, Outcome, ok, err, panic, fail, new_error, err_parse,
  err_invalid_request, err_bad_params,
}
use gof.J2rpc.Http.{
  Writer, Request, is_written, header_set, http_error, send, status, validate_request,
}
use gof.J2rpc.Message.{Message, has_valid_id, methods, output, set_error, write_response}
use gof.J2rpc.Names.{join}
use gof.J2rpc.Reflect.{GoType}
use gof.J2rpc.Reflect.Effect.{Effect, lift, recover, ◌>>=◌}
use gof.J2rpc.Callback.{Callback, call, stack}
use gof.J2rpc.Middleware.{before_action}
use gof.J2rpc.Args.{positional}
use gof.J2rpc.Server.{Server, Libraries, format_name, get_callback}

abbrev is_zero : ℤ → Bool
is_zero (pos n) = n == 0
is_zero (negsuc n) = false

abbrev pub nosniff : Writer → Writer
nosniff w = header_set (codes "X-Content-Type-Options") (codes "nosniff") w

module _ {A : Type 0} (L : Libraries A) where
  -- the answer to marshal: a value that is neither nil nor zero
  unfoldable pub marshal_answer : Option A → Outcome (Option Text)
  marshal_answer none = ok none
  marshal_answer (some v) =
      if not (L.reflect.is_valid v)
      then ok none
      else if L.reflect.is_zero v
      then ok none
      else elim (L.reflect.marshal v) [ ok t ↦ ok (some t) | err e ↦ err e | panic p ↦ panic p ]

  -- the arguments; a failure is a bad parameter
  unfoldable pub call_args : Text → List GoType → Outcome (List A)
  unfolding new_error error_text
  call_args params types = elim (positional L.reflect (L.tokens params) types) [
    | ok args ↦ ok args
    | err e ↦ elim (error_text e) [ says t ↦ fail err_bad_params t | bursts p ↦ panic p ]
    | panic p ↦ panic p
  ]

  -- the end of `handle`, below the deferred recovery
  unfoldable pub run_callback : Callback A → A → Text → Effect (Option Text)
  unfolding call_args marshal_answer
  run_callback cbk ctx params = recover (stack cbk.method_name) (do
    args ← lift (call_args params cbk.arg_types)
    res ← call L.reflect cbk ctx args
    lift (marshal_answer res))

  -- an error of a middleware ends `handle`
  unfoldable pub guarded : Callback A → A → Text → Option GoError → Effect (Option Text)
  guarded cbk ctx params none = run_callback cbk ctx params
  guarded cbk ctx params (some e) = lift (err e)

  -- `handle` from `getCallBack` on: the result, if there is one to store
  unfoldable pub dispatch : Server A → A → A → A → List Text → Text → Text → Effect (Option Text)
  unfolding get_callback run_callback guarded
  dispatch s ctx wr req elem method params = do
    cbk ← lift (get_callback s elem)
    mid ←
        before_action L.reflect L.regexp s.before_mid method
          (ctx ∷ L.reflect.of_text method ∷ wr ∷ req ∷ [])
    guarded cbk ctx params mid

  -- `msg.Result = answer`
  unfoldable pub store_result : Option Text → Message → Message
  store_result none msg = msg
  store_result (some t) msg = record msg { result = t }

  -- how `handle` ends: `msg.Result = answer`, the error, or the panic
  unfoldable pub finish : Message → Outcome (Option Text) → Message × Outcome (Unit {0})
  unfolding store_result
  finish msg (ok res) = (store_result res msg, ok tt)
  finish msg (err e) = (msg, err e)
  finish msg (panic p) = (msg, panic p)

  -- `handle` from the namespace and the method on
  unfoldable pub handle_names :
      Server A → A → A → A → Message → List Text → Writer → (Message × Outcome (Unit {0})) × Writer
  unfolding dispatch finish format_name
  handle_names s ctx wr req msg elem w =
      let names = map (format_name s) elem in
      let msg' = record msg { method = join names } in
      let (out, w') = dispatch s ctx wr req names (join names) msg.params w in (finish msg' out, w')

  -- `handle` on a decoded message
  unfoldable pub handle_message :
      Server A → A → A → A → Message → Writer → (Message × Outcome (Unit {0})) × Writer
  unfolding handle_names new_error
  handle_message s ctx wr req msg w =
      if not (has_valid_id msg)
      then ((msg, fail err_invalid_request (codes "id is invalid")), w)
      else elim (methods msg) [
        | err e ↦ ((msg, err e), w)
        | panic p ↦ ((msg, panic p), w)
        | ok elem ↦ handle_names s ctx wr req msg elem w
      ]

  -- `handle` behind the decoder, which gave a message and perhaps an error
  unfoldable pub after_decode :
      Server A
      → A
      → A
      → A
      → Message
      → Option Text
      → Writer
      → (Message × Outcome (Unit {0})) × Writer
  unfolding handle_message new_error
  after_decode s ctx wr req msg (some t) w = ((msg, fail err_parse t), w)
  after_decode s ctx wr req msg none w = handle_message s ctx wr req msg w

  -- `handle`
  unfoldable pub handle :
      Server A → A → A → A → Request → Writer → (Message × Outcome (Unit {0})) × Writer
  unfolding after_decode
  handle s ctx wr req r w =
      let (msg, failed) = L.decode r.body r.body_broken in after_decode s ctx wr req msg failed w

  -- the end of `Handler`: the response to what `handle` left
  unfoldable pub respond : Message × Outcome (Unit {0}) → Writer → Outcome (Unit {0}) × Writer
  unfolding set_error output
  respond (msg, ok _) w = write_response L.marshal (output msg) w
  respond (msg, err e) w = elim (set_error (some e) msg) [
    | ok m ↦ write_response L.marshal (output m) w
    | err f ↦ (err f, w)
    | panic p ↦ (panic p, w)
  ]
  respond (msg, panic p) w = (panic p, w)

  -- `Handler`; `wr` and `req` are the writer and the request as values for middlewares
  unfoldable pub handler : Server A → A → A → A → Request → Writer → Outcome (Unit {0}) × Writer
  unfolding handle respond http_error error_text is_written
  handler s ctx wr req r w =
      if not s.run
      then (ok tt, w)
      else if is_written w
      then (ok tt, w)
      else elim (validate_request L.parse_media_type r) [
        | some (code, e) ↦ elim (error_text e) [
          | says t ↦ (ok tt, http_error t code w)
          | bursts p ↦ (panic p, w)
        ]
        | none ↦ (let (res, w') = handle s ctx wr req r (nosniff w) in respond res w')
      ]

  -- `ServeHTTP`
  unfoldable pub serve_http : Server A → A → A → A → Request → Writer → Outcome (Unit {0}) × Writer
  unfolding handler send
  serve_http s ctx wr req r w =
      if text_eq r.method (codes "GET") && (is_zero r.content_length && text_eq r.raw_query [])
      then (ok tt, send (status 200) w)
      else handler s ctx wr req r w
