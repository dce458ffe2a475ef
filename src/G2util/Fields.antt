-- ===== src/G2util/Fields.antt =====
-- g2util/reflect.go and `PopulateConstructor` of j2rpc/interface.go: the fields of a struct as package reflect
-- shows them. What pointers point to is of type `P`; a panic is none.
pub mod Again
use mathlib.Core.Option
use gof.Base.{Bool, true, false, not, Option, none, some, List, [], ◌∷◌, map, if◌then◌else◌, Text}
use gof.Base.Dict.{Dict, get}

-- what a field holds: a pointer by the name of its type, perhaps nil, or a value of another kind
pub data Content (P : Type 0) : Type 0 where
  pointer : Text → Option P → Content P
  other : Content P

-- a field with its tags; an unexported one can be neither set nor read
pub record Field (P : Type 0) : Type 0 where
  pub tags : Dict Text
  pub exported : Bool
  pub content : Content P

-- `reflect.Value`: a pointer, perhaps nil, a struct, or a value of another kind
pub data GoValue (P : Type 0) : Type 0 where
  nil : GoValue P
  ptr : GoValue P → GoValue P
  struct : List (Field P) → GoValue P
  plain : GoValue P

module _ {P : Type 0} where
  -- `ValueIndirect`; behind a nil pointer there is no valid value, `none`
  unfoldable pub value_indirect : GoValue P → Option (GoValue P)
  value_indirect nil = none
  value_indirect (ptr v) = value_indirect v
  value_indirect (struct fs) = some (struct fs)
  value_indirect plain = some plain

  -- `NewValue`: a pointer to the zero value of the type, which is the argument; the zero `reflect.Value`
  -- behind a nil pointer has no type, and panics
  unfoldable pub new_value : (GoValue P → GoValue P) → GoValue P → Option (GoValue P)
  unfolding value_indirect
  new_value zero_of v = Option.map (λ u. ptr (zero_of u)) (value_indirect v)

  abbrev pub is_ptr : GoValue P → Bool
  is_ptr nil = true
  is_ptr (ptr v) = true
  is_ptr (struct fs) = false
  is_ptr plain = false

  unfoldable pub has_tag : Text → Field P → Bool
  unfolding get
  has_tag tag f = elim (get tag f.tags) [ none ↦ false | some t ↦ true ]

  module _ (new_of : Text → P) (tag : Text) where
    -- `_f1append` of a field that can be set: the instance, and what the field becomes
    unfoldable pub append_field : Field P → Option P × Field P
    unfolding has_tag
    append_field f =
        if not (has_tag tag f)
        then (none, f)
        else if not f.exported
        then (none, f)
        else elim f.content [
          | other ↦ (none, f)
          | pointer t (some p) ↦ (some p, f)
          | pointer t none ↦ (some (new_of t), record f { content = pointer t (some (new_of t)) })
        ]

    unfoldable pub prepend : Option P → List P → List P
    prepend none ps = ps
    prepend (some p) ps = p ∷ ps

    -- the loop of `ObjectTagInstances` over the fields left
    unfoldable pub tag_fields : List (Field P) → List P × List (Field P)
    unfolding append_field prepend
    tag_fields [] = ([], [])
    tag_fields (f ∷ fs) =
        let (o, f') = append_field f in let (ps, fs') = tag_fields fs in (prepend o ps, f' ∷ fs')

    -- the object behind a pointer
    unfoldable pub tag_behind : GoValue P → Option (List P × GoValue P)
    unfolding tag_fields
    tag_behind nil = none
    tag_behind plain = none
    tag_behind (ptr v) = Option.map (λ r. (r.0, ptr r.1)) (tag_behind v)
    tag_behind (struct fs) = some (let (ps, fs') = tag_fields fs in (ps, struct fs'))

    -- `ObjectTagInstances`: the instances, and what the object becomes; the fields of a struct that is
    -- not behind a pointer cannot be set, so it has none
    unfoldable pub object_tag_instances : GoValue P → Option (List P × GoValue P)
    unfolding tag_behind
    object_tag_instances (struct fs) = some ([], struct fs)
    object_tag_instances v = tag_behind v

  module _ {W : Type 0} (constructor : Text → Option (Option P → W → Option W)) where
    -- the field's own `Constructor`, if its type has one; reading an unexported field panics
    unfoldable pub construct_field : Field P → W → Option W
    construct_field f w = elim f.content [
      | other ↦ some w
      | pointer t p ↦
          if not f.exported then none else elim (constructor t) [ none ↦ some w | some c ↦ c p w ]
    ]

    -- the loop of `PopulateConstructor`
    unfoldable pub construct_fields : List (Field P) → W → Option W
    unfolding construct_field
    construct_fields [] w = some w
    construct_fields (f ∷ fs) w = elim (construct_field f w) [
      | none ↦ none
      | some w' ↦ construct_fields fs w'
    ]

    -- `PopulateConstructor`
    unfoldable pub populate_constructor : GoValue P → W → Option W
    unfolding construct_fields value_indirect
    populate_constructor v w = if not (is_ptr v) then none else elim (value_indirect v) [
      | none ↦ none
      | some u ↦ elim u [
        | nil ↦ none
        | ptr x ↦ none
        | plain ↦ none
        | struct fs ↦ construct_fields fs w
      ]
    ]
