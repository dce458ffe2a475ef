-- ===== src/J2rpc/Tests/Samples.antt =====
-- The libraries and the objects that the runs use.
use gof.Base.{
  true, false, Option, none, some, [], ◌∷◌, ◌++◌, ◌==◌, if◌then◌else◌, Text, codes, text_eq,
}
use gof.Base.Int.{pos}
use gof.J2rpc.Error.{other, ok, err, panic}
use gof.J2rpc.Http.{Writer, Request}
use gof.J2rpc.Message.{Message, empty_message}
use gof.J2rpc.Reflect.{GoType, named, Reflect}
use gof.J2rpc.Callback.{Func}
use gof.J2rpc.Args.{Tokens, eof, array}
use gof.J2rpc.Server.{Server, Method, Receiver, Libraries, new}

abbrev pub text_type : GoType
text_type = named (record { is_error = false; is_context = false; is_nillable = false })

abbrev pub context_type : GoType
context_type = named (record { is_error = false; is_context = true; is_nillable = true })

abbrev pub error_type : GoType
error_type = named (record { is_error = true; is_context = false; is_nillable = true })

abbrev pub reflect : Reflect Text
reflect = record {
  type_of = λ v. text_type;
  is_valid = λ v. true;
  is_zero = λ v. text_eq v [];
  is_nil = λ v. false;
  as_error = λ v. none;
  unwrap = λ v. some v;
  zero_of = λ t. [];
  new_of = λ t. [];
  convertible_to = λ v t. true;
  of_text = λ t. t;
  marshal = λ v. ok v;
  decode = λ t d. if text_eq d (codes "{") then err (other (codes "unexpected EOF")) else ok d;
}

-- a body is a method, a space and an argument; the id is 7
abbrev pub split_space : Text → Text → Text × Text
split_space cur [] = (cur, [])
split_space cur (c ∷ s) =
    let rest = split_space (cur ++ c ∷ []) s in if c == 32 then (cur, s) else rest

abbrev pub decode_body : Text → Message × Option Text
decode_body [] = (empty_message, some (codes "EOF"))
decode_body (c ∷ s) =
    let (m, p) = split_space [] (c ∷ s) in
    (
      record {
        id = codes "7";
        version = codes "2.0";
        method = m;
        params = p;
        result = [];
        error = none;
      },
      none,
    )

abbrev pub tokens_of : Text → Tokens
tokens_of [] = eof
tokens_of (c ∷ s) = array ((c ∷ s) ∷ []) none

abbrev pub libraries : Libraries Text
libraries = record {
  reflect = reflect;
  decode =
      λ t broken. if broken then (empty_message, some (codes "unexpected EOF")) else decode_body t;
  tokens = tokens_of;
  marshal = λ m. ok m.result;
  parse_media_type = λ t. some t;
  regexp = λ s m. ok false;
}

abbrev pub echo_func : Func Text
echo_func = record {
  ins = text_type ∷ context_type ∷ text_type ∷ [];
  outs = text_type ∷ error_type ∷ [];
  run = λ args w. elim args [
    | (rcv ∷ ctx ∷ t ∷ rest) ↦ (ok (t ∷ t ∷ []), w)
    | _ ↦ (panic (codes "arity"), w)
  ];
}

abbrev pub boom_func : Func Text
boom_func = record { ins = text_type ∷ []; outs = []; run = λ args w. (panic (codes "boom"), w) }

abbrev pub say_hi : Method Text
say_hi = record { name = codes "SayHi"; pkg_path = []; fn = echo_func }

abbrev pub boom : Method Text
boom = record { name = codes "Boom"; pkg_path = []; fn = boom_func }

abbrev pub hidden : Method Text
hidden = record { name = codes "Constructor"; pkg_path = []; fn = boom_func }

abbrev pub echo : Receiver Text
echo = record {
  value = codes "echo";
  type_name = codes "EchoApi";
  namespace_name = none;
  exclude_method = none;
  methods = hidden ∷ boom ∷ say_hi ∷ [];
}

abbrev pub bare : Server Text
bare = new true []

abbrev pub writer : Writer
writer = record { header = []; sent = [] }

abbrev pub request : Text → Request
request b = record {
  method = codes "POST";
  content_length = pos 20;
  raw_query = [];
  content_type = codes "application/json";
  body = b;
  body_broken = false;
}
