-- ===== src/G2util/JsonTime/RoundTrip.antt =====
-- Times written and read back.
use gof.Base.{
  ℕ, ◌≡◌, refl, ◌≢◌, inl, inr, Bool, true, false, ◌&&◌, ◌||◌, none, some, [], ◌∷◌, map, arith, leb,
  ◌==◌, List-cases, Text, codes, text_eq, text_eq_iff,
}
use gof.J2rpc.Names.{to_lower, is_upper}
use gof.G2util.JsonTime.{
  Clock, custom, rfc3339_nano, trim_left, trim_right, trim, is_space, parse_trimmed,
  parse_json_time, to_db, from_db, string, string_format,
}

-- The characters of RFC 3339: digits, signs, colons and two letters.
unfoldable pub is_stamp : ℕ → Bool
is_stamp c = (leb b'0' c && leb c b':') || (c == b'-' || (c == b'+' || (c == b'T' || c == b'Z')))

unfoldable pub all_stamp : Text → Bool
unfolding is_stamp
all_stamp [] = true
all_stamp (c ∷ s) = is_stamp c && all_stamp s

-- A time that `Custom` prints in those characters, and what the parser of RFC 3339 reads from that. Package
-- time documents it for years from 0 to 9999 and zones of whole minutes.
pub record IsPrinted {T D : Type 0} (k : Clock T D) (t u : T) : Type 0 where
  pub stamp : all_stamp (k.format custom t) ≡ true
  pub full : k.format custom t ≢ []
  pub parsed : k.parse rfc3339_nano (k.format custom t) ≡ some u

-- a test that no character of a time passes
pub record IsOutside (p : ℕ → Bool) : Type 0 where
  pub outside : (c : ℕ) → is_stamp c ≡ true → p c ≡ false

is_space-IsOutside : IsOutside is_space
unfolding is_stamp is_space
is_space-IsOutside = record { outside = λ c h. ground (arith, h) }

module _ (p : ℕ → Bool) (o : IsOutside p) where
  trim_left_clean : (s : Text) → all_stamp s ≡ true → trim_left p s ≡ s
  unfolding trim_left all_stamp
  trim_left_clean [] h = refl
  trim_left_clean (c ∷ s) h = ground (arith, h, o.outside c)

  trim_right_clean : (s : Text) → all_stamp s ≡ true → trim_right p s ≡ s
  unfolding trim_right all_stamp
  trim_right_clean [] h = refl
  trim_right_clean (c ∷ s) h =
      let rest : trim_right p s ≡ s = trim_right_clean s (ground (arith, h)) in
      elim (List-cases s) [
        | inl q ↦ ground (arith, h, q, rest, o.outside c)
        | inr (d, r, q) ↦ ground (arith, h, q, rest)
      ]

  trim_clean : (s : Text) → all_stamp s ≡ true → trim p s ≡ s
  unfolding trim
  trim_clean s h = rw (trim_left_clean s h) (trim_right_clean s h)

-- a text of a time is not `null`
not_null : (s : Text) → all_stamp s ≡ true → text_eq (map to_lower s) (codes "null") ≡ false
unfolding text_eq to_lower is_upper all_stamp is_stamp
not_null [] h = refl
not_null (c ∷ s) h = ground (arith, h)

parse_stamp :
    {T D : Type 0} (k : Clock T D) (s : Text) (t : T)
    → all_stamp s ≡ true
    → s ≢ []
    → k.parse rfc3339_nano s ≡ some t
    → parse_json_time k s ≡ t
unfolding parse_json_time parse_trimmed
parse_stamp k s t h n e =
    rw (trim_clean is_space is_space-IsOutside s h)
      (ground (arith, n, e, not_null s h, text_eq_iff s []))

module _ {T D : Type 0} (k : Clock T D) where
  -- What is written to the database reads back in the same way.
  pub from_db-to_db :
      (t u old : T)
      → IsPrinted k (k.local t) u
      → elim (to_db k (some t)) [ none ↦ none | some s ↦ from_db k s (some old) ] ≡ some u
  from_db-to_db t u old law =
      let str = k.format custom (k.local t) in
      let read = parse_stamp k str u law.stamp law.full law.parsed in
      (unfold to_db from_db string string_format in
        elim (List-cases str) [
          | inl z ↦ absurd (law.full z)
          | inr (c, s, z) ↦ ground (arith, z, read)
        ])
