-- ===== src/J2rpc/Server/Security.antt =====
-- Which methods of an object can be called.
use gof.Base.{
  ℕ, ◌≡◌, sym, ◌≢◌, inl, inr, true, false, Option, none, some, List, [], ◌∷◌, ◌++◌, arith,
  Bool-cases, Option-cases, any, All, Text, codes, text_eq, text_eq_iff,
}
use mathlib.Core.Path.{subst}
use gof.Base.Dict.{Dict, get, put, get-put}
use gof.J2rpc.Callback.{Callback, make_arg_types, result_shape}
use gof.J2rpc.Reflect.{GoType, is_error_type}
use mathlib.Core.Option.{some-injective}
use gof.J2rpc.Args.Count.{make_arg_types-Typed}
use gof.J2rpc.Server.{
  Server, Method, Receiver, format_name, skip_methods, raw_callback, append_method, append_methods,
  suitable_callbacks,
}

-- The results that a callback may have, and the place of its error among them: none, a value, an
-- error, or a value and an error.
pub data IsResults : List GoType → Option ℕ → Type 0 where
  nothing : IsResults [] none
  one_value : (a : GoType) → is_error_type a ≡ false → IsResults (a ∷ []) none
  one_error : (a : GoType) → is_error_type a ≡ true → IsResults (a ∷ []) (some 0)
  value_and_error :
      (a b : GoType)
      → is_error_type a ≡ false
      → is_error_type b ≡ true
      → IsResults (a ∷ b ∷ []) (some 1)

result_shape-IsResults :
    (outs : List GoType) (p : Option ℕ) → result_shape outs ≡ some p → IsResults outs p
unfolding result_shape
result_shape-IsResults [] p h = subst (IsResults []) (some-injective none p h) nothing
result_shape-IsResults (a ∷ []) p h = elim (Bool-cases (is_error_type a)) [
  | inl e ↦ subst (IsResults (a ∷ [])) (ground (arith, h, e)) (one_error a e)
  | inr e ↦ subst (IsResults (a ∷ [])) (ground (arith, h, e)) (one_value a e)
]
result_shape-IsResults (a ∷ b ∷ []) p h =
    subst (IsResults (a ∷ b ∷ [])) (ground (arith, h))
      (value_and_error a b (ground (arith, h)) (ground (arith, h)))
result_shape-IsResults (a ∷ b ∷ c ∷ r) p h = cc

-- a name that is not found in a list is none of its names
any-All : (n : Text) (l : List Text) → any (λ k. text_eq n k) l ≡ false → All (λ k. n ≢ k) l
any-All n [] h = tt
any-All n (k ∷ l) h =
    ((λ e. ground (arith, h, e, text_eq_iff n k)), any-All n l (ground (arith, h)))

All-left {ℓ} :
    {A : Type ℓ} (P : A → Type 0) (xs ys : List A) → All P (xs ++ ys) → All P xs × All P ys
All-left P [] ys h = (tt, h)
All-left P (x ∷ xs) ys (p, h) = let (a, b) = All-left P xs ys h in ((p, a), b)

module _ {A : Type 0} (s : Server A) (r : Receiver A) where
  -- what holds of each callback of the object
  pub record IsAllowed (c : Callback A) : Type 0 where
    pub no_constructor : c.method_name ≢ codes "Constructor"
    pub no_exclude_method : c.method_name ≢ codes "ExcludeMethod"
    pub not_of_server : All (λ k. c.method_name ≢ k) s.exclude_methods
    pub not_of_object :
        (ms : List Text) → r.exclude_method ≡ some ms → All (λ k. c.method_name ≢ k) ms
    pub shape : IsResults c.fn.outs c.err_pos
    pub receiver : c.rcv ≡ some r.value

  -- the four lists behind the one that is searched
  skip_methods-All :
      {P : Text → Type 0}
      → All P (skip_methods s r)
      → P (codes "Constructor")
        × P (codes "ExcludeMethod")
        × All P s.exclude_methods
        × ((ms : List Text) → r.exclude_method ≡ some ms → All P ms)
  unfolding skip_methods
  skip_methods-All {P} (a, (b, h)) =
      let (c, d) =
        All-left P s.exclude_methods (elim r.exclude_method [ none ↦ [] | some ms ↦ ms ]) h in
      (
        a,
        b,
        c,
        λ ms e. subst (λ (o : Option (List Text)). All P (elim o [ none ↦ [] | some l ↦ l ])) e d,
      )

  abbrev AllAllowed : Dict (Callback A) → Type 0
  AllAllowed cbs = (k : Text) (c : Callback A) → get k cbs ≡ some c → IsAllowed c

  put-AllAllowed :
      (k : Text) (c : Callback A) (cbs : Dict (Callback A))
      → IsAllowed c
      → AllAllowed cbs
      → AllAllowed (put k c cbs)
  put-AllAllowed k c cbs hc h j d e = elim (Bool-cases (text_eq k j)) [
    | inl t ↦ subst IsAllowed (ground (arith, get-put k j c cbs, t)) hc
    | inr f ↦ h j d (ground (arith, get-put k j c cbs, f))
  ]

  raw_callback-IsAllowed :
      (m : Method A) (c : Callback A)
      → any (λ k. text_eq m.name k) (skip_methods s r) ≡ false
      → make_arg_types (raw_callback r.value m) ≡ some c
      → IsAllowed c
  unfolding raw_callback
  raw_callback-IsAllowed m c h e =
      let T = make_arg_types-Typed (raw_callback r.value m) e in
      let free = any-All m.name (skip_methods s r) h in
      let own : All (λ k. c.method_name ≢ k) (skip_methods s r) =
        subst (λ (n : Text). All (λ k. n ≢ k) (skip_methods s r)) (sym T.name) free in
      let (no_c, no_e, no_s, no_o) = skip_methods-All own in
      record {
        no_constructor = no_c;
        no_exclude_method = no_e;
        not_of_server = no_s;
        not_of_object = no_o;
        shape = result_shape-IsResults c.fn.outs c.err_pos (rw T.fn T.results);
        receiver = T.rcv;
      }

  append_method-AllAllowed :
      (m : Method A) (cbs : Dict (Callback A))
      → AllAllowed cbs
      → AllAllowed (append_method s r m cbs)
  append_method-AllAllowed m cbs h = elim (Bool-cases (text_eq m.pkg_path [])) [
    | inr f ↦ (unfold append_method in rw f h)
    | inl p ↦ elim (Bool-cases (any (λ k. text_eq m.name k) (skip_methods s r))) [
      | inl t ↦ (unfold append_method in rw (p, t) h)
      | inr f ↦ elim (Option-cases (make_arg_types (raw_callback r.value m))) [
        | inl z ↦ (unfold append_method in rw (p, f, z) h)
        | inr (c, e) ↦
            (unfold append_method in
              rw (p, f, e)
                (put-AllAllowed (format_name s m.name) c cbs (raw_callback-IsAllowed m c f e) h))
      ]
    ]
  ]

  append_methods-AllAllowed :
      (ms : List (Method A)) (cbs : Dict (Callback A))
      → AllAllowed cbs
      → AllAllowed (append_methods s r ms cbs)
  unfolding append_methods
  append_methods-AllAllowed [] cbs h = h
  append_methods-AllAllowed (m ∷ ms) cbs h =
      append_methods-AllAllowed ms (append_method s r m cbs) (append_method-AllAllowed m cbs h)

  -- Every callback of an object is called on the object; its name is neither `Constructor` nor
  -- `ExcludeMethod` and on neither the server's list of exclusions nor the object's; and its results are
  -- none, a value, an error, or a value and an error, in this order, with the place of the error right.
  pub suitable_callbacks-IsAllowed :
      (k : Text) (c : Callback A) → get k (suitable_callbacks s r) ≡ some c → IsAllowed c
  unfolding suitable_callbacks
  suitable_callbacks-IsAllowed = append_methods-AllAllowed r.methods [] (λ k c e. unfold get in cc)
