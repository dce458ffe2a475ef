-- ===== src/G2util/Maps/Getters.antt =====
-- g2util/map.go: single values and keys of a map, and its JSON; g2util/merge_bean.go. The conversions of
-- the package com are parameters.
use gof.Base.{
  ◌≡◌, inl, inr, Bool, true, false, not, Option, none, some, List, [], ◌∷◌, arith, if◌then◌else◌,
  Text,
}
use gof.Base.Dict.{Dict, get, put}
use gof.Base.Int.{ℤ, pos}
use gof.Fault.{Result, ok, err, Result-cases}
use gof.G2util.Maps.{Json, bean_to_map, to_bean, merge_to, merge_to_bean}

-- `com.ToStr`, and the parsers of texts, which give a zero value with an error
pub record Com (V : Type 0) : Type 0 where
  pub to_str : V → Text
  pub parse_bool : Text → Bool × Bool
  pub must_int : Text → ℤ
  pub must_int64 : Text → ℤ

module _ {V : Type 0} (c : Com V) where
  -- `GetString`, `GetBool`, `GetInt` and `GetInt64`
  unfoldable pub get_string : Dict V → Text → Text
  unfolding get
  get_string m key = elim (get key m) [ none ↦ [] | some v ↦ c.to_str v ]

  unfoldable pub get_bool : Dict V → Text → Bool
  unfolding get
  get_bool m key = elim (get key m) [ none ↦ false | some v ↦ (c.parse_bool (c.to_str v)).0 ]

  unfoldable pub get_int : Dict V → Text → ℤ
  unfolding get
  get_int m key = elim (get key m) [ none ↦ pos 0 | some v ↦ c.must_int (c.to_str v) ]

  unfoldable pub get_int64 : Dict V → Text → ℤ
  unfolding get
  get_int64 m key = elim (get key m) [ none ↦ pos 0 | some v ↦ c.must_int64 (c.to_str v) ]

-- `Keys`, in the order of the range
unfoldable pub keys_of : {V : Type 0} → Dict V → List Text
keys_of [] = []
keys_of ((k, v) ∷ m) = k ∷ keys_of m

-- `TransMapStringToMap`; `wrap` is a text as an `interface{}`
unfoldable pub trans_map_string_to_map : {V : Type 0} → (Text → V) → Dict Text → Dict V
trans_map_string_to_map wrap [] = []
trans_map_string_to_map wrap ((k, s) ∷ m) = put k (wrap s) (trans_map_string_to_map wrap m)

module _ {B V : Type 0} (j : Json B V) where
  -- `MarshalBinary` and `UnmarshalBinary`
  unfoldable pub marshal_binary : Dict V → Result Text
  marshal_binary m = j.marshal_map m

  unfoldable pub unmarshal_binary : Text → Result (Dict V)
  unmarshal_binary bytes = j.unmarshal_map bytes

  -- `MergeBean`: what the destination becomes; one that is no pointer is a panic, none
  unfoldable pub merge_bean : Bool → B → Dict V → Option (Result B)
  unfolding merge_to
  merge_bean is_pointer dst src =
      if not is_pointer
      then none
      else some (elim (j.marshal dst) [
        | err e ↦ err e
        | ok bytes ↦ elim (j.unmarshal_map bytes) [
          | err e ↦ err e
          | ok tmp ↦ elim (j.marshal_map (merge_to src tmp)) [
            | err e ↦ err e
            | ok merged ↦ j.unmarshal merged dst
          ]
        ]
      ])

  -- Into a pointer, `MergeBean` merges as `Merge2Bean` of the map does.
  merge_bean-merge_to_bean :
      (dst : B) (src : Dict V) → merge_bean true dst src ≡ some (merge_to_bean j src dst)
  merge_bean-merge_to_bean dst src = elim (Result-cases (j.marshal dst)) [
    | inr (e, p) ↦ (unfold merge_bean merge_to_bean bean_to_map to_bean in ground (arith, p))
    | inl (bytes, p) ↦ elim (Result-cases (j.unmarshal_map bytes)) [
      | inr (e, q) ↦ (unfold merge_bean merge_to_bean bean_to_map to_bean in ground (arith, p, q))
      | inl (tmp, q) ↦ elim (Result-cases (j.marshal_map (merge_to src tmp))) [
        | inr (e, r) ↦
            (unfold merge_bean merge_to_bean bean_to_map to_bean in ground (arith, p, q, r))
        | inl (m, r) ↦
            (unfold merge_bean merge_to_bean bean_to_map to_bean in ground (arith, p, q, r))
      ]
    ]
  ]
