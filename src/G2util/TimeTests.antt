-- ===== src/G2util/TimeTests.antt =====
-- Runs of JSON times on a clock that counts tenths of seconds and prints whole ones.
use gof.Base.{ℕ, ◌+◌, ◌*◌, ◌/◌, ◌≡◌, refl, none, some, [], ◌∷◌, ◌++◌, ◌==◌, codes, text_eq}
use gof.Base.Int.{pos}
use gof.Base.Decimal.{decimal}
use gof.Base.Decimal.Digits.{read}
use gof.Fault.{ok}
use gof.G2util.JsonTime.{Clock, marshal_json, parse_json_time, quote}

abbrev tenths : Clock ℕ ℕ
tenths = record {
  zero_time = 0;
  is_zero = λ t. t == 0;
  unix_nano = λ t. pos t;
  local = λ t. t;
  add = λ t d. t + d;
  midnight = λ t. t;
  format = λ l t. b'0' ∷ decimal (t / 10);
  parse = λ l s. some (read 0 s * 10);
  parse_in_location = λ l s. none;
  marshal_binary = λ t. ok [];
  unmarshal_binary = λ s. ok 0;
}

abbrev whole : ℕ → ℕ
whole t = t / 10 * 10

written : marshal_json tenths (some 127) ≡ quote ∷ (codes "012" ++ quote ∷ [])
unfolding marshal_json decimal
written = refl

null_read : parse_json_time tenths (codes " Null ") ≡ 0
unfolding parse_json_time text_eq
null_read = refl
