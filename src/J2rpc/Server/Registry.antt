-- ===== src/J2rpc/Server/Registry.antt =====
-- Registering objects and finding their methods again.
use gof.Base.{
  ◌≡◌, sym, ap, ◌∙◌, ◌≢◌, true, none, some, List, [], ◌∷◌, ◌++◌, map, arith, if◌then◌else◌,
  List-cases, Text, codes, text_eq, text_eq_iff, text_eq_refl,
}
use gof.Base.Dict.{Dict, get, put, get-put}
use gof.J2rpc.Error.{Outcome, ok, panic, fail, err_no_method}
use gof.J2rpc.Names.{snake_string}
use gof.J2rpc.Names.Snake.{snake_string-snake_string}
use gof.J2rpc.Callback.{Callback}
use gof.J2rpc.Server.{
  Server, Receiver, format_name, suitable_callbacks, service_name, register, get_callback,
}

-- the answer for a method of a namespace that holds these callbacks
abbrev pub method_of : {A : Type 0} → Dict (Callback A) → Text → Outcome (Callback A)
method_of cbs m = elim (get m cbs) [ none ↦ fail err_no_method (codes "no method") | some c ↦ ok c ]

module _ {A : Type 0} (r : Receiver A) (names : List Text) (s : Server A) where
  -- what a registration does to the server when it succeeds with callbacks
  pub record Registered (s' : Server A) : Type 0 where
    pub fresh : get (service_name s r names) s.services ≡ none
    pub services :
        s'.services
        ≡ put
            (service_name s r names)
            (record { name = service_name s r names; callbacks = suitable_callbacks s r })
            s.services
    pub snake_namespace : s'.snake_namespace ≡ s.snake_namespace

  register-Registered :
      {s' : Server A} → suitable_callbacks s r ≢ [] → register r names s ≡ ok s' → Registered s'
  unfolding register
  register-Registered n h = record {
    fresh = ground arith;
    services = ground arith;
    snake_namespace = ground arith;
  }

  get-services :
      {s' : Server A} (ns : Text)
      → Registered s'
      → get ns s'.services ≡ (
          if text_eq (service_name s r names) ns
          then some (record { name = service_name s r names; callbacks = suitable_callbacks s r })
          else get ns s.services)
  get-services ns G = ap (get ns) G.services ∙ get-put (service_name s r names) ns _ s.services

  -- After a registration that adds callbacks, a call in the new namespace finds exactly those
  -- callbacks.
  pub get_callback-register_self :
      {s' : Server A} (m : Text)
      → suitable_callbacks s r ≢ []
      → register r names s ≡ ok s'
      → get_callback s' (service_name s r names ∷ m ∷ []) ≡ method_of (suitable_callbacks s r) m
  unfolding get_callback
  get_callback-register_self m n h =
      let name = service_name s r names in
      ground (arith, get-services name (register-Registered n h), text_eq_refl name)

  -- Every other namespace answers as before.
  pub get_callback-register_ne :
      {s' : Server A} (ns : Text) (ms : List Text)
      → suitable_callbacks s r ≢ []
      → register r names s ≡ ok s'
      → service_name s r names ≢ ns
      → get_callback s' (ns ∷ ms) ≡ get_callback s (ns ∷ ms)
  unfolding get_callback
  get_callback-register_ne ns ms n h ne =
      ground
        (arith, get-services ns (register-Registered n h), text_eq_iff (service_name s r names) ns)

  -- A second object with callbacks under the same name panics.
  pub register_twice :
      {s' : Server A} (q : Receiver A) (more : List Text)
      → suitable_callbacks s r ≢ []
      → register r names s ≡ ok s'
      → suitable_callbacks s' q ≢ []
      → service_name s' q more ≡ service_name s r names
      → register q more s'
        ≡ panic (codes "namespace [" ++ service_name s' q more ++ codes "] exists")
  unfolding register
  register_twice {s'} q more n h n' e =
      let name = service_name s r names in
      ground (
        arith,
        get-services name (register-Registered n h),
        text_eq_refl name,
        List-cases (suitable_callbacks s' q),
      )

  -- With snake names, an object with callbacks that is registered under a name which the conversion
  -- changes is out of reach: every request is answered as if it were not there.
  pub get_callback_unreachable :
      {s' : Server A} (ns m : Text)
      → suitable_callbacks s r ≢ []
      → register r names s ≡ ok s'
      → s.snake_namespace ≡ true
      → snake_string (service_name s r names) ≢ service_name s r names
      → get_callback s' (map (format_name s') (ns ∷ m ∷ []))
        ≡ get_callback s (map (format_name s) (ns ∷ m ∷ []))
  unfolding format_name
  get_callback_unreachable ns m n h snake capital =
      let G = register-Registered n h in
      ground (
        arith,
        G.snake_namespace,
        get_callback-register_ne (snake_string ns) (snake_string m ∷ []) n h
            (λ e. capital (ap snake_string e ∙ (snake_string-snake_string ns ∙ sym e))),
      )
