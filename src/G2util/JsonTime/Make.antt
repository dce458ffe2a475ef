-- ===== src/G2util/JsonTime/Make.antt =====
-- g2util/time.go: times made from other times and from texts, the zone, and the time that a function takes.
use gof.Base.{◌≡◌, refl, Option, none, some, Text, codes}
use gof.Fault.{Result, ok, err}
use gof.G2util.JsonTime.{Clock, parse_json_time, convert2time}

abbrev pub time_zone : Text
time_zone = codes "Asia/Shanghai"

module _ {T D : Type 0} (k : Clock T D) where
  -- `Time`
  unfoldable pub time_of : Option T → T
  unfolding convert2time
  time_of none = k.zero_time
  time_of (some t) = convert2time k (some t)

  -- `NewJSONTimePtr` and `NewJSONTimeOfTime`
  unfoldable pub new_json_time_ptr : T → Option T
  new_json_time_ptr t = some t

  -- `ToDatetime` and `ToDatetimeOK`
  unfoldable pub to_datetime : Text → Result T
  unfolding parse_json_time
  to_datetime text = ok (parse_json_time k text)

  unfoldable pub to_datetime_ok : Text → T
  unfolding parse_json_time
  to_datetime_ok text = parse_json_time k text

  -- `Must2JSONTimeAddr`; a panic is none
  unfoldable pub must2json_time_addr : Text → Option (Option T)
  unfolding to_datetime
  must2json_time_addr text = elim (to_datetime text) [ ok t ↦ some (some t) | err e ↦ none ]

  -- `Now`, at what `TimeNow` gives
  unfoldable pub now : T → Option T
  unfolding new_json_time_ptr
  now t = new_json_time_ptr t

  -- No text makes `Must2JSONTimeAddr` panic: what cannot be parsed is the zero time.
  must2json_time_addr_returns :
      (text : Text) → must2json_time_addr text ≡ some (some (to_datetime_ok text))
  unfolding must2json_time_addr to_datetime_ok
  must2json_time_addr_returns text = refl

-- `SetTimeZone`: the local zone of the process, and the error of the loading
unfoldable pub set_time_zone : {Z : Type 0} → (Text → Result Z) → Z → Result (Unit {0}) × Z
set_time_zone load_location local = elim (load_location time_zone) [
  | ok z ↦ (ok tt, z)
  | err e ↦ (err e, local)
]

-- `TimeExcWrap`: `TimeNow` before the function, and package time's own clock in `Since` behind it
unfoldable pub time_exc_wrap :
    {W T D : Type 0} → (W → T) → (W → T) → (T → T → D) → (W → W) → W → D × W
time_exc_wrap time_now clock_now minus fn w = (minus (clock_now (fn w)) (time_now w), fn w)
