-- ===== src/J2rpc/Message.antt =====
-- j2rpc/message.go: the message that is decoded, filled in and written back.
pub mod Output
use gof.Base.{
  Bool, false, not, ◌&&◌, Option, none, some, List, [], ◌∷◌, ◌==◌, if◌then◌else◌, length, Text,
  codes,
}
use gof.J2rpc.Error.{
  RpcError, GoError, rpc, nil_rpc, token, forbidden, other, mute, says, bursts, error_text, Outcome,
  ok, err, panic, fail, new_error, err_no_method, err_authorization, err_forbidden, err_server,
}
use gof.J2rpc.Http.{Writer, is_written, write_error, header_set, abort_write_header, send, body}
use gof.J2rpc.Names.{split_two}

-- `RPCMessage`; raw JSON is its bytes, and the empty text is an absent field
pub record Message : Type 0 where
  pub id : Text
  pub version : Text
  pub method : Text
  pub params : Text
  pub result : Text
  pub error : Option RpcError

abbrev pub empty_message : Message
empty_message = record {
  id = [];
  version = [];
  method = [];
  params = [];
  result = [];
  error = none;
}

unfoldable pub has_valid_id : Message → Bool
has_valid_id r = elim r.id [ [] ↦ false | c ∷ s ↦ not (c == b'{') && not (c == b'[') ]

-- `methods`: the namespace and the method
unfoldable pub methods : Message → Outcome (List Text)
unfolding new_error split_two
methods r =
    let elem = split_two [] r.method in
    if length elem == 2 then ok elem else fail err_no_method (codes "wrong method")

abbrev pub vsn : Text
vsn = codes "2.0"

-- an absent id is answered as 1
unfoldable pub or_one : Text → Text
or_one [] = codes "1"
or_one (c ∷ s) = c ∷ s

unfoldable pub output : Message → Message
unfolding or_one
output r = record r { id = or_one r.id; version = vsn; method = []; params = [] }

-- `setError`; a nil error is `none`. The method `Error` is called below no recovery.
unfoldable pub set_error : Option GoError → Message → Outcome Message
unfolding new_error
set_error none r = ok r
set_error (some (rpc e)) r = ok (record r { error = some e })
set_error (some nil_rpc) r = ok (record r { error = none })
set_error (some (token t)) r = ok (record r { error = some (new_error err_authorization t []) })
set_error (some (forbidden t)) r = ok (record r { error = some (new_error err_forbidden t []) })
set_error (some (other t)) r = ok (record r { error = some (new_error err_server t []) })
set_error (some (mute p)) r = panic p

-- `writeResponse`; `marshal` is `json.Marshal` on a message
unfoldable pub write_response :
    (Message → Outcome Text) → Message → Writer → Outcome (Unit {0}) × Writer
unfolding error_text is_written write_error header_set abort_write_header send
write_response marshal r w = if is_written w then (ok tt, w) else elim (marshal r) [
  | err e ↦ elim (error_text e) [ says t ↦ (ok tt, write_error 500 t w) | bursts p ↦ (panic p, w) ]
  | panic p ↦ (panic p, w)
  | ok bts ↦ (
    ok tt,
    send (body bts) (
        abort_write_header 200
          (header_set (codes "Content-Type") (codes "application/json; charset=utf-8") w)),
  )
]
