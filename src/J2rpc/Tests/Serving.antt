-- ===== src/J2rpc/Tests/Serving.antt =====
-- Registrations and requests on concrete inputs.
use gof.Base.{
  ◌≤◌, ◌≡◌, refl, sym, ◌∙◌, ◌≢◌, ◌⊎◌, true, false, none, some, List, [], ◌∷◌, map, length, Text,
  codes, text_eq,
}
use gof.Base.Dict.{Dict, get, put}
use gof.J2rpc.Error.{GoError, rpc, nil_rpc, other, mute, ok, err, panic, err_internal}
use gof.J2rpc.Message.{Message, has_valid_id, write_response, set_error}
use gof.J2rpc.Message.Output.{write_response_once}
use gof.J2rpc.Names.{snake_string, join, is_upper, to_lower}
use gof.J2rpc.Reflect.{traits, is_error_type}
use gof.J2rpc.Callback.{Callback, make_arg_types, call}
use gof.J2rpc.Middleware.{before_action}
use gof.J2rpc.Args.{eof, array, fill, positional}
use gof.J2rpc.Args.Count.{Decoded, positional_sound}
use gof.J2rpc.Server.{
  Server, new, format_name, skip_methods, raw_callback, suitable_callbacks, given_name, register,
  get_callback,
}
use gof.J2rpc.Http.{is_written}
use gof.J2rpc.Server.Serve.{dispatch, handle, nosniff, handler, respond}
use gof.J2rpc.Server.Reach.{Suits, get_callback_reaches}
use gof.J2rpc.Server.Security.{IsAllowed, suitable_callbacks-IsAllowed}
use gof.J2rpc.Server.Recovery.{CalmMiddleware, CalmEncoder, handler_returns}
use gof.J2rpc.Tests.Samples.{
  text_type, reflect, libraries, echo_func, boom_func, say_hi, boom, hidden, echo, bare, writer,
  request,
}

abbrev echo_callback : Callback Text
echo_callback = record {
  method_name = codes "SayHi";
  rcv = some (codes "echo");
  fn = echo_func;
  arg_types = text_type ∷ [];
  has_ctx = true;
  err_pos = some 1;
}

abbrev boom_callback : Callback Text
boom_callback = record {
  method_name = codes "Boom";
  rcv = some (codes "echo");
  fn = boom_func;
  arg_types = [];
  has_ctx = false;
  err_pos = none;
}

abbrev echo_callbacks : Dict (Callback Text)
echo_callbacks = (codes "boom", boom_callback) ∷ (codes "say_hi", echo_callback) ∷ []

abbrev with_echo : Text → Server Text
with_echo name = record {
  snake_namespace = true;
  before_mid = [];
  run = true;
  exclude_methods = [];
  services = (name, record { name = name; callbacks = echo_callbacks }) ∷ [];
}

abbrev served : Server Text
served = with_echo (codes "echo_api")

echo_suitable : suitable_callbacks bare echo ≡ echo_callbacks
unfolding suitable_callbacks new text_eq snake_string put is_upper to_lower traits is_error_type
    make_arg_types
echo_suitable = refl

served_suitable : suitable_callbacks served echo ≡ echo_callbacks
unfolding suitable_callbacks text_eq snake_string put is_upper to_lower traits is_error_type
    make_arg_types
served_suitable = refl

list_apart : echo_callbacks ≢ []
list_apart e = cc

some_callback : suitable_callbacks bare echo ≢ []
some_callback e = absurd (list_apart (sym echo_suitable ∙ e))

echo_registers : register echo [] bare ≡ ok served
unfolding register text_eq snake_string put get new is_upper to_lower traits is_error_type
    make_arg_types
echo_registers = refl

named_registers : register echo (codes "Echo" ∷ []) bare ≡ ok (with_echo (codes "Echo"))
unfolding register text_eq snake_string put get new is_upper to_lower traits is_error_type
    make_arg_types
named_registers = refl

say_hi-Suits : Suits bare echo say_hi echo_callback
unfolding make_arg_types raw_callback skip_methods text_eq new is_error_type
say_hi-Suits = record { exported = refl; listed = refl; typed = refl }

echo_anonymous : given_name echo [] ≡ []
unfolding given_name
echo_anonymous = refl

spelled_in_go : format_name bare (codes "EchoApi") ≡ format_name bare echo.type_name
spelled_in_go = refl

get_callback_reaches_example :
    get_callback served (map (format_name bare) (codes "EchoApi" ∷ codes "SayHi" ∷ []))
    ≡ ok echo_callback
get_callback_reaches_example =
    get_callback_reaches bare echo (hidden ∷ boom ∷ []) [] say_hi echo_callback (codes "EchoApi")
      (codes "SayHi") echo_registers echo_anonymous refl say_hi-Suits tt spelled_in_go refl

found_callback : get (codes "say_hi") (suitable_callbacks bare echo) ≡ some echo_callback
unfolding suitable_callbacks new text_eq snake_string put get is_upper to_lower traits is_error_type
    make_arg_types
found_callback = refl

suitable_callbacks-IsAllowed_example : IsAllowed bare echo echo_callback
suitable_callbacks-IsAllowed_example =
    suitable_callbacks-IsAllowed bare echo (codes "say_hi") echo_callback found_callback

abbrev sent : Text → Message
sent m = record {
  id = codes "7";
  version = codes "2.0";
  method = m;
  params = [];
  result = [];
  error = none;
}

valid_dotted : has_valid_id (sent (codes "a.b")) ≡ true
unfolding has_valid_id
valid_dotted = refl

bad_argument :
    positional reflect (array (codes "{" ∷ []) none) (text_type ∷ [])
    ≡ err (other (codes "invalid argument 0: unexpected EOF"))
unfolding positional text_eq
bad_argument = refl

no_arguments : positional reflect eof [] ≡ ok []
unfolding positional
no_arguments = refl

calm : CalmMiddleware libraries served [] [] []
unfolding before_action
calm m w = λ z. z

calm_encoder : CalmEncoder libraries served [] [] []
calm_encoder = record { returns = λ m z. z; speaks = λ m e p h. cc }

handler_returns_example :
    ((handler libraries served [] [] [] (request (codes "echo_api.boom")) writer).0 ≡ ok tt)
    ⊎ ((p : Text) × ((handle libraries served [] [] []
            (request (codes "echo_api.boom"))
            (nosniff writer)).0.1
          ≡ err (mute p))
        × ((handler libraries served [] [] [] (request (codes "echo_api.boom")) writer).0
            ≡ panic p))
handler_returns_example =
    handler_returns libraries served [] [] [] (request (codes "echo_api.boom")) writer calm
      calm_encoder

sample_written : (write_response libraries.marshal (sent (codes "a")) writer).0 ≡ ok tt
unfolding write_response is_written get text_eq
sample_written = refl

once_calm : (p : Text) → (write_response libraries.marshal (sent (codes "a")) writer).0 ≢ panic p
once_calm p e = (let bad : ok tt ≡ panic p = sym sample_written ∙ e in cc)

write_response_once_example :
    write_response libraries.marshal
      (sent (codes "b"))
      (write_response libraries.marshal (sent (codes "a")) writer).1
    ≡ (ok tt, (write_response libraries.marshal (sent (codes "a")) writer).1)
write_response_once_example =
    write_response_once libraries.marshal (sent (codes "a")) (sent (codes "b")) writer once_calm

one_argument :
    positional reflect (array (codes "x" ∷ []) none) (text_type ∷ text_type ∷ [])
    ≡ ok (codes "x" ∷ [] ∷ [])
unfolding positional text_eq
one_argument = refl

positional_sound_example :
    (vs : List Text) × Decoded reflect (codes "x" ∷ []) (text_type ∷ text_type ∷ []) vs
    × (length (codes "x" ∷ []) ≤ length (text_type ∷ text_type ∷ []))
    × (codes "x" ∷ [] ∷ [] ≡ fill reflect vs (text_type ∷ text_type ∷ []))
positional_sound_example =
    positional_sound reflect (codes "x" ∷ []) none (text_type ∷ text_type ∷ []) one_argument

echo_typed : make_arg_types (raw_callback (codes "echo") say_hi) ≡ some echo_callback
unfolding make_arg_types raw_callback is_error_type
echo_typed = refl

abbrev echo_names : List Text
echo_names = codes "echo_api" ∷ codes "say_hi" ∷ []

abbrev hello : Message
hello = record (sent (codes "echo_api.say_hi")) { params = codes "x" }

answers :
    dispatch libraries served [] [] []
      (map (format_name served) echo_names)
      (join (map (format_name served) echo_names))
      hello.params
      writer
    ≡ (ok (some (codes "x")), writer)
unfolding dispatch text_eq snake_string get is_upper to_lower traits is_error_type format_name
    before_action positional call
answers = refl

abbrev boom_names : List Text
boom_names = codes "echo_api" ∷ codes "boom" ∷ []

abbrev crashed : GoError
crashed = rpc (record {
  code = err_internal;
  message = codes "RPC method Boom handler crashed: boom";
  payload = none;
})

crashes :
    dispatch libraries served [] [] []
      (map (format_name served) boom_names)
      (join (map (format_name served) boom_names))
      []
      writer
    ≡ (err crashed, writer)
unfolding dispatch text_eq snake_string get is_upper to_lower traits is_error_type format_name
    before_action positional call
crashes = refl

-- an error whose method `Error` panics comes through, and a nil `*Error` is no error in the response
mute_error :
    (respond libraries (sent (codes "a"), err (mute (codes "oops"))) writer).0
    ≡ panic (codes "oops")
unfolding respond
mute_error = refl

nil_error : set_error (some nil_rpc) (sent (codes "a")) ≡ ok (sent (codes "a"))
unfolding set_error
nil_error = refl
