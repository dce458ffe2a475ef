-- ===== src/G2util/JsonTime.antt =====
-- g2util/time.go `JSONTime`: times in JSON, in the database and in gob. Package time is a parameter,
-- with times `T`; a nil pointer is `none`.
pub mod RoundTrip
pub mod Make
use gof.Base.{
  ℕ, Bool, not, ◌&&◌, ◌||◌, Option, none, some, List, [], ◌∷◌, ◌++◌, map, leb, ◌==◌, if◌then◌else◌,
  Text, codes, text_eq,
}
use gof.Base.Int.{ℤ, ltb_int}
use gof.Fault.{plain, Result, ok, err}
use gof.J2rpc.Names.{to_lower}

pub record Clock (T D : Type 0) : Type 0 where
  pub zero_time : T
  pub is_zero : T → Bool
  pub unix_nano : T → ℤ
  pub local : T → T
  pub add : T → D → T
  pub midnight : T → T
  pub format : Text → T → Text
  pub parse : Text → Text → Option T
  pub parse_in_location : Text → Text → Option T
  pub marshal_binary : T → Result Text
  pub unmarshal_binary : Text → Result T

-- what a database hands to `Scan`, with what `%v` prints of a value that is no time
pub data Scanned (T : Type 0) : Type 0 where
  null : Scanned T
  time : T → Scanned T
  other : Text → Scanned T

-- `Custom`, and `time.RFC3339Nano`
abbrev pub custom : Text
custom = codes "2006-01-02T15:04:05Z07:00"

abbrev pub rfc3339_nano : Text
rfc3339_nano = codes "2006-01-02T15:04:05.999999999Z07:00"

abbrev pub date_layout : Text
date_layout = codes "2006-01-02"

abbrev pub json_time_parse_layouts : List Text
json_time_parse_layouts =
    codes "2006-01-02 15:04:05"
    ∷ codes "2006-01-02T15:04:05.999999999"
    ∷ codes "2006-01-02 15:04:05.999999999"
    ∷ codes "2006-01-02T15:04:05.999999999Z07:00"
    ∷ codes "2006-01-02"
    ∷ codes "2006-01-02T15:04:05.999Z07:00"
    ∷ codes "2006-01-02T15:04:05.999999Z07:00"
    ∷ codes "2006-01-02 15:04:05.999"
    ∷ codes "2006-01-02 15:04:05.999999"
    ∷ custom
    ∷ rfc3339_nano
    ∷ codes "Mon, 02 Jan 2006 15:04:05 MST"
    ∷ codes "Mon, 02 Jan 2006 15:04:05 -0700"
    ∷ codes "02 Jan 06 15:04 MST"
    ∷ codes "02 Jan 06 15:04 -0700"
    ∷ codes "Mon Jan _2 15:04:05 2006"
    ∷ []

-- `strings.Trim` of the characters that pass a test
unfoldable pub trim_left : (ℕ → Bool) → Text → Text
trim_left p [] = []
trim_left p (c ∷ s) = let rest = trim_left p s in if p c then rest else c ∷ s

unfoldable pub trim_right : (ℕ → Bool) → Text → Text
trim_right p [] = []
trim_right p (c ∷ s) = elim (trim_right p s) [ d ∷ e ↦ c ∷ d ∷ e | [] ↦ if p c then [] else c ∷ [] ]

unfoldable pub trim : (ℕ → Bool) → Text → Text
unfolding trim_left trim_right
trim p s = trim_right p (trim_left p s)

-- `unicode.IsSpace`
unfoldable pub is_space : ℕ → Bool
is_space c =
    (leb 9 c && leb c 13)
    || (c == 32
        || (c == 133
            || (c == 160
                || (c == 5760
                    || ((leb 8192 c && leb c 8202)
                        || (c == 8232
                            || (c == 8233 || (c == 8239 || (c == 8287 || c == 12288)))))))))

abbrev pub int_eq : ℤ → ℤ → Bool
int_eq a b = not (ltb_int a b || ltb_int b a)

-- the double quote
abbrev pub quote : ℕ
quote = 34

unfoldable pub is_quote : ℕ → Bool
is_quote c = c == quote

module _ {T D : Type 0} (k : Clock T D) where
  -- the loop over the layouts
  unfoldable pub parse_layouts : List Text → Text → T
  parse_layouts [] str = k.zero_time
  parse_layouts (l ∷ ls) str = elim (k.parse_in_location l str) [
    | some t ↦ t
    | none ↦ parse_layouts ls str
  ]

  -- `parseInlocation2jsonTime` behind the trimming
  unfoldable pub parse_trimmed : Text → T
  unfolding parse_layouts text_eq to_lower
  parse_trimmed str =
      if text_eq str [] || text_eq (map to_lower str) (codes "null")
      then k.zero_time
      else elim (k.parse rfc3339_nano str) [
        | some t ↦ t
        | none ↦ parse_layouts json_time_parse_layouts str
      ]

  -- `parseInlocation2jsonTime`
  unfoldable pub parse_json_time : Text → T
  unfolding parse_trimmed trim is_space
  parse_json_time str = parse_trimmed (trim is_space str)

  -- `Convert2Time` and `Time`
  unfoldable pub convert2time : Option T → T
  convert2time none = k.zero_time
  convert2time (some t) = k.local t

  -- `Add`
  unfoldable pub add : Option T → D → Option T
  unfolding convert2time
  add p d = some (k.add (convert2time p) d)

  -- `Date`
  unfoldable pub date : Option T → Option T
  date none = none
  date (some t) = some (k.midnight (k.local t))

  -- `StringFormat`
  unfoldable pub string_format : Option T → Text → Text
  string_format none layout = []
  string_format (some t) layout = k.format layout (k.local t)

  -- `String`
  unfoldable pub string : Option T → Text
  unfolding string_format
  string p = string_format p custom

  -- `MarshalJSON`
  unfoldable pub marshal_json : Option T → Text
  marshal_json none = quote ∷ quote ∷ []
  marshal_json (some t) =
      if k.is_zero t
      then quote ∷ quote ∷ []
      else quote ∷ (k.format custom (k.local t) ++ quote ∷ [])

  -- `UnmarshalJSON`: what the pointer points to afterwards
  unfoldable pub unmarshal_json : Text → Option T → Option T
  unfolding parse_json_time trim is_quote
  unmarshal_json bytes none = none
  unmarshal_json bytes (some old) = some (parse_json_time (trim is_quote bytes))

  -- `ToDB`; nil bytes are `none`
  unfoldable pub to_db : Option T → Option Text
  unfolding string
  to_db none = none
  to_db (some t) = some (string (some t))

  -- `FromDB`
  unfoldable pub from_db : Text → Option T → Option T
  unfolding parse_json_time
  from_db [] p = p
  from_db (c ∷ s) none = none
  from_db (c ∷ s) (some old) = some (parse_json_time (c ∷ s))

  -- `Scan`: the error, and what the pointer points to; a time that is set through nil is a panic
  unfoldable pub scan : Scanned T → Option T → Option (Result (Option T))
  scan null p = some (ok p)
  scan (time t) none = none
  scan (time t) (some old) = some (ok (some t))
  scan (other s) p = some (err (plain (codes "can not convert " ++ (s ++ codes " to timestamp"))))

  -- `Value`; a nil value is `none`
  unfoldable pub value : Option T → Option T
  value none = none
  value (some t) =
      if int_eq (k.unix_nano (k.local t)) (k.unix_nano k.zero_time) then none else some (k.local t)

  -- `GobEncode`; nil bytes are the empty text
  unfoldable pub gob_encode : Option T → Result Text
  gob_encode none = ok []
  gob_encode (some t) = k.marshal_binary (k.local t)

  -- `GobDecode`
  unfoldable pub gob_decode : Text → Option T → Result (Option T)
  gob_decode bytes none = ok none
  gob_decode bytes (some old) = elim (k.unmarshal_binary bytes) [
    | err e ↦ err e
    | ok t ↦ ok (some t)
  ]

  -- `SetByTime`
  unfoldable pub set_by_time : T → Option T → Option T
  set_by_time t none = none
  set_by_time t (some old) = some t

  -- `Today` and `TodayDate`, at a time that `TimeNow` gives
  unfoldable pub today : T → Option T
  unfolding date
  today now = date (some now)

  unfoldable pub today_date : T → Text
  today_date now = k.format date_layout now
