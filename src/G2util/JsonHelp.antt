-- ===== src/G2util/JsonHelp.antt =====
-- g2util/json_help.go: JSON without errors, and in base64. JSON is a parameter.
pub mod RoundTrip
use gof.Base.{Bool, Option, none, some, List, [], ◌∷◌, if◌then◌else◌, Text, codes}
use gof.Base.Base64.{encode, decode}
use gof.Fault.{Err, plain, Result, ok, err}

-- values of type `V`; bytes are read into a value that is there
pub record Json (V : Type 0) : Type 0 where
  pub marshal : V → Result Text
  pub marshal_indent : V → Result Text
  pub unmarshal : Text → V → Result V

-- the bytes that come with an error are nil
unfoldable pub bytes_of : Result Text → Text
bytes_of (ok b) = b
bytes_of (err e) = []

-- the error of base64 at bytes that it cannot decode; its text is left out
abbrev pub corrupt : Err
corrupt = plain (codes "illegal base64 data")

module _ {V : Type 0} (j : Json V) where
  -- `JsMarshal` and `JsMarshalIndent`
  unfoldable pub js_marshal : V → Text
  unfolding bytes_of
  js_marshal v = bytes_of (j.marshal v)

  unfoldable pub js_marshal_indent : V → Text
  unfolding bytes_of
  js_marshal_indent v = bytes_of (j.marshal_indent v)

  -- `JSONDump`, with the further arguments as the Booleans that they are, if they are
  unfoldable pub json_dump : V → List (Option Bool) → Text
  unfolding js_marshal js_marshal_indent
  json_dump v [] = js_marshal v
  json_dump v (none ∷ args) = js_marshal v
  json_dump v (some indent ∷ args) = if indent then js_marshal_indent v else js_marshal v

  -- `JSONMarshalToBase64`
  unfoldable pub json_marshal_to_base64 : V → Result Text
  unfolding encode
  json_marshal_to_base64 v = elim (j.marshal v) [ err e ↦ err e | ok bts ↦ ok (encode bts) ]

  -- `JSONUnmarshalFromBase64`
  unfoldable pub json_unmarshal_from_base64 : Text → V → Result V
  unfolding decode
  json_unmarshal_from_base64 bytes v = elim (decode bytes) [
    | none ↦ err corrupt
    | some bts ↦ j.unmarshal bts v
  ]
