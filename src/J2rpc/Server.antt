-- ===== src/J2rpc/Server.antt =====
-- j2rpc/j2rpc.go: the server, the registration of objects and the lookup of their methods. Locks
-- protect `services` during a registration, which is modelled as one step; logging is left out.
pub mod Serve
pub mod Registry
pub mod Reach
pub mod Security
pub mod Codes
pub mod Recovery
pub mod Reply
use gof.Base.{
  Bool, true, false, not, Option, none, some, List, [], ◌∷◌, ◌++◌, if◌then◌else◌, any, Text, codes,
  text_eq,
}
use gof.Base.Dict.{Dict, get, put}
use gof.J2rpc.Error.{Outcome, ok, err, panic, fail, new_error, err_no_method}
use gof.J2rpc.Message.{Message, methods}
use gof.J2rpc.Names.{snake_string}
use gof.J2rpc.Reflect.{Reflect}
use gof.J2rpc.Callback.{Func, Callback, make_arg_types}
use gof.J2rpc.Middleware.{MiddleInfo}
use gof.J2rpc.Args.{Tokens}

-- `service`, without the receiver, which each callback holds
pub record Service (A : Type 0) : Type 0 where
  pub name : Text
  pub callbacks : Dict (Callback A)

-- `server` with its `Option`; `run` is whether the flag is 1
pub record Server (A : Type 0) : Type 0 where
  pub snake_namespace : Bool
  pub before_mid : List (MiddleInfo A)
  pub run : Bool
  pub services : Dict (Service A)
  pub exclude_methods : List Text

-- `reflect.Method` of a receiver
pub record Method (A : Type 0) : Type 0 where
  pub name : Text
  pub pkg_path : Text
  pub fn : Func A

-- an object to register: its value, the name of its type behind pointers, what its optional
-- interfaces give, and its methods
pub record Receiver (A : Type 0) : Type 0 where
  pub value : A
  pub type_name : Text
  pub namespace_name : Option Text
  pub exclude_method : Option (List Text)
  pub methods : List (Method A)

-- The libraries outside the repository: the decoder of messages from the bytes of a body and whether its
-- reading breaks off behind them, the decoder of parameters, the encoder
-- of messages, the parser of media types, regular expressions.
pub record Libraries (A : Type 0) : Type 0 where
  pub reflect : Reflect A
  pub decode : Text → Bool → Message × Option Text
  pub tokens : Text → Tokens
  pub marshal : Message → Outcome Text
  pub parse_media_type : Text → Option Text
  pub regexp : Text → Text → Outcome Bool

module _ {A : Type 0} where
  -- `New` with an option that sets `SnakeNamespace`
  unfoldable pub new : Bool → List (MiddleInfo A) → Server A
  new snake mids = record {
    snake_namespace = snake;
    before_mid = mids;
    run = true;
    services = [];
    exclude_methods = [];
  }

  -- `Stop`
  unfoldable pub stop : Server A → Server A
  stop s = record s { run = false }

  unfoldable pub format_name : Server A → Text → Text
  format_name s name = if s.snake_namespace then snake_string name else name

  -- the methods that are never callbacks
  unfoldable pub skip_methods : Server A → Receiver A → List Text
  skip_methods s r =
      (codes "Constructor" ∷ codes "ExcludeMethod" ∷ s.exclude_methods)
      ++ elim r.exclude_method [ none ↦ [] | some ms ↦ ms ]

  -- the callback that a method becomes before its types are looked at
  unfoldable pub raw_callback : A → Method A → Callback A
  raw_callback value m = record {
    method_name = m.name;
    rcv = some value;
    fn = m.fn;
    arg_types = [];
    has_ctx = false;
    err_pos = none;
  }

  -- `_fnAppendMethods`
  unfoldable pub append_method :
      Server A → Receiver A → Method A → Dict (Callback A) → Dict (Callback A)
  unfolding skip_methods raw_callback format_name
  append_method s r m cbs =
      if not (text_eq m.pkg_path [])
      then cbs
      else if any (λ k. text_eq m.name k) (skip_methods s r)
      then cbs
      else elim (make_arg_types (raw_callback r.value m)) [
        | none ↦ cbs
        | some c ↦ put (format_name s m.name) c cbs
      ]

  -- the loop of `suitableCallbacks` over the methods left
  unfoldable pub append_methods :
      Server A → Receiver A → List (Method A) → Dict (Callback A) → Dict (Callback A)
  unfolding append_method
  append_methods s r [] cbs = cbs
  append_methods s r (m ∷ ms) cbs = append_methods s r ms (append_method s r m cbs)

  unfoldable pub suitable_callbacks : Server A → Receiver A → Dict (Callback A)
  unfolding append_methods
  suitable_callbacks s r = append_methods s r r.methods []

  -- `_fnGetServiceName`: the method wins over the given name, and the type's name comes last
  unfoldable pub given_name : Receiver A → List Text → Text
  given_name r names = elim r.namespace_name [
    | some n ↦ n
    | none ↦ elim names [ [] ↦ [] | n ∷ ns ↦ n ]
  ]

  unfoldable pub service_name : Server A → Receiver A → List Text → Text
  unfolding given_name format_name
  service_name s r names =
      let name = given_name r names in if text_eq name [] then format_name s r.type_name else name

  -- `Register`
  unfoldable pub register : Receiver A → List Text → Server A → Outcome (Server A)
  unfolding service_name suitable_callbacks
  register r names s =
      let name = service_name s r names in
      let callbacks = suitable_callbacks s r in
      elim callbacks [
        | [] ↦ ok s
        | c ∷ cs ↦ elim (get name s.services) [
          | some srv ↦ panic (codes "namespace [" ++ name ++ codes "] exists")
          | none ↦ ok (record s {
            services = put name (record { name = name; callbacks = c ∷ cs }) s.services;
          })
        ]
      ]

  register_all : List (Receiver A) → Server A → Outcome (Server A)
  unfolding register
  register_all [] s = ok s
  register_all (r ∷ rs) s = elim (register r [] s) [
    | ok s' ↦ register_all rs s'
    | err e ↦ err e
    | panic p ↦ panic p
  ]

  -- `RegisterForApp`: the application's own exclusions, if any, and its tagged objects
  unfoldable pub register_for_app :
      Option (List Text) → List (Receiver A) → Server A → Outcome (Server A)
  unfolding register_all
  register_for_app none rs s = register_all rs s
  register_for_app (some ms) rs s = register_all rs (record s { exclude_methods = ms })

  -- `getCallBack`
  unfoldable pub get_callback : Server A → List Text → Outcome (Callback A)
  unfolding new_error
  get_callback s [] = panic (codes "index out of range")
  get_callback s (ns ∷ ms) = elim (get ns s.services) [
    | none ↦ fail err_no_method (codes "no namespace")
    | some svs ↦ elim ms [
      | [] ↦ panic (codes "index out of range")
      | m ∷ r ↦ elim (get m svs.callbacks) [
        | none ↦ fail err_no_method (codes "no method")
        | some cbk ↦ ok cbk
      ]
    ]
  ]
