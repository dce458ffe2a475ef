-- ===== src/J2rpc/Server/Reach.antt =====
-- How requests come to the methods of registered objects.
use gof.Base.{
  ◌≡◌, refl, ◌∙◌, ◌≢◌, inl, inr, false, some, List, [], ◌∷◌, ◌++◌, map, arith, Option-cases, any,
  All, Text, text_eq, text_eq_iff, text_eq_refl,
}
use gof.Base.Dict.{Dict, get, get-put, get-put_self}
use gof.J2rpc.Error.{ok}
use gof.J2rpc.Names.Snake.{snake_string-snake_string}
use gof.J2rpc.Callback.{Callback, make_arg_types}
use gof.J2rpc.Server.{
  Server, Method, Receiver, format_name, skip_methods, raw_callback, append_method, append_methods,
  suitable_callbacks, given_name, service_name, register, get_callback,
}
use gof.J2rpc.Server.Registry.{get_callback-register_self}

-- What makes a method of an object a callback: it is exported, not excluded, and its types are
-- accepted; `c` is the callback.
pub record Suits {A : Type 0} (s : Server A) (r : Receiver A) (m : Method A) (c : Callback A)
    : Type 0 where
  pub exported : m.pkg_path ≡ []
  pub listed : any (λ k. text_eq m.name k) (skip_methods s r) ≡ false
  pub typed : make_arg_types (raw_callback r.value m) ≡ some c

module _ {A : Type 0} (s : Server A) (r : Receiver A) where
  get-append_method_self :
      (m : Method A) (c : Callback A) (cbs : Dict (Callback A))
      → Suits s r m c
      → get (format_name s m.name) (append_method s r m cbs) ≡ some c
  get-append_method_self m c cbs h =
      unfold append_method in
      rw (h.exported, h.listed, h.typed, text_eq_refl) (get-put_self (format_name s m.name) c cbs)

  get-append_method_ne :
      (key : Text) (m : Method A) (cbs : Dict (Callback A))
      → format_name s m.name ≢ key
      → get key (append_method s r m cbs) ≡ get key cbs
  unfolding append_method
  get-append_method_ne key m cbs ne =
      elim (Option-cases (make_arg_types (raw_callback r.value m))) [
        | inl z ↦ ground (arith, z)
        | inr (c, e) ↦ ground (
          arith,
          e,
          get-put (format_name s m.name) key c cbs,
          text_eq_iff (format_name s m.name) key,
        )
      ]

  get-append_methods_ne :
      (key : Text) (ms : List (Method A)) (cbs : Dict (Callback A))
      → All (λ m. format_name s m.name ≢ key) ms
      → get key (append_methods s r ms cbs) ≡ get key cbs
  unfolding append_methods
  get-append_methods_ne key [] cbs _ = refl
  get-append_methods_ne key (m ∷ ms) cbs (h, hs) =
      get-append_methods_ne key ms _ hs ∙ get-append_method_ne key m cbs h

  append_methods-append :
      (ms ns : List (Method A)) (cbs : Dict (Callback A))
      → append_methods s r (ms ++ ns) cbs ≡ append_methods s r ns (append_methods s r ms cbs)
  unfolding append_methods
  append_methods-append [] ns cbs = refl
  append_methods-append (m ∷ ms) ns cbs = append_methods-append ms ns _

  get-suitable_callbacks :
      (before after : List (Method A)) (m : Method A) (c : Callback A)
      → r.methods ≡ before ++ m ∷ after
      → Suits s r m c
      → All (λ k. format_name s k.name ≢ format_name s m.name) after
      → get (format_name s m.name) (suitable_callbacks s r) ≡ some c
  unfolding suitable_callbacks append_methods
  get-suitable_callbacks before after m c e h apart =
      rw (e, append_methods-append)
        (get-append_methods_ne (format_name s m.name) after _ apart
          ∙ get-append_method_self m c _ h)

  format_name-format_name : (t : Text) → format_name s (format_name s t) ≡ format_name s t
  unfolding format_name
  format_name-format_name t = ground (arith, snake_string-snake_string t)

  found-ne-nil :
      (key : Text) (cbs : Dict (Callback A)) (c : Callback A) → get key cbs ≡ some c → cbs ≢ []
  unfolding get
  found-ne-nil key [] c e z = cc
  found-ne-nil key (p ∷ cbs) c e z = cc

  service_name_type : given_name r [] ≡ [] → service_name s r [] ≡ format_name s r.type_name
  unfolding service_name
  service_name_type e = ground (arith, e, text_eq_refl [])

  -- A request for `Type.Method` finds the callback of the method, if the object was registered
  -- under its type's name, the method is suitable, and no later method has the same name once
  -- formatted. The request may spell either name in any way that is formatted alike.
  pub get_callback_reaches :
      {s' : Server A} (before after : List (Method A)) (m : Method A) (c : Callback A)
      (ns name : Text)
      → register r [] s ≡ ok s'
      → given_name r [] ≡ []
      → r.methods ≡ before ++ m ∷ after
      → Suits s r m c
      → All (λ k. format_name s k.name ≢ format_name s m.name) after
      → format_name s ns ≡ format_name s r.type_name
      → format_name s name ≡ format_name s m.name
      → get_callback s' (map (format_name s) (ns ∷ name ∷ [])) ≡ ok c
  get_callback_reaches {s'} before after m c ns name reg anon e h apart en em =
      let found = get-suitable_callbacks before after m c e h apart in
      let some_callback : suitable_callbacks s r ≢ [] =
        found-ne-nil (format_name s m.name) _ c found in
      let self = get_callback-register_self r [] s (format_name s m.name) some_callback reg in
      rw (en, em, ← service_name_type anon) (self ∙ ground (arith, found))
