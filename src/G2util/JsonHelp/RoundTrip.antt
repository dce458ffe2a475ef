-- ===== src/G2util/JsonHelp/RoundTrip.antt =====
-- Values through base64.
use gof.Base.{◌≡◌, sym, ap, ◌∙◌, inl, inr, some, arith, All, Text}
use gof.Base.Base64.{encode, decode}
use gof.Base.Base64.Decoded.{IsByte, decode-encode}
use gof.Fault.{ok, Result-cases}
use gof.G2util.JsonHelp.{Json, json_marshal_to_base64, json_unmarshal_from_base64}

-- What is assumed of JSON: what it writes are bytes.
pub record IsJson {V : Type 0} (j : Json V) : Type 0 where
  pub marshal-bytes : (v : V) (t : Text) → j.marshal v ≡ ok t → All IsByte t

-- Base64 is transparent to JSON that writes bytes: reading what was written as base64 into a value
-- gives exactly the value or the error that JSON gives for its own bytes and that value.
pub json_unmarshal_from_base64-json_marshal_to_base64 :
    {V : Type 0} (j : Json V)
    → IsJson j
    → (v old : V) (t : Text) → json_marshal_to_base64 j v ≡ ok t
    → (bts : Text) × (j.marshal v ≡ ok bts)
      × (json_unmarshal_from_base64 j t old ≡ j.unmarshal bts old)
json_unmarshal_from_base64-json_marshal_to_base64 j laws v old t h =
    elim (Result-cases (j.marshal v)) [
      | inr (e, q) ↦ (unfold json_marshal_to_base64 in ground (arith, h, q))
      | inl (bts, q) ↦
          (let same : encode bts ≡ t = (unfold json_marshal_to_base64 in ground (arith, h, q)) in
            let back : decode t ≡ some bts =
              ap decode (sym same) ∙ decode-encode bts (laws.marshal-bytes v bts q) in
            (bts, q, (unfold json_unmarshal_from_base64 in ground (arith, back))))
    ]
