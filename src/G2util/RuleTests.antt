-- ===== src/G2util/RuleTests.antt =====
-- Runs of the rules, of passwords and of values in base64.
use mathlib.Core.List.{flat_map}
use mathlib.Core.Path
use gof.Base.{
  ℕ, zero, suc, ◌+◌, ◌≡◌, refl, Bool, true, false, ◌&&◌, [], ◌∷◌, arith, leb, ◌==◌, if◌then◌else◌,
  take, any, All, Text, codes, text_eq,
}
use gof.Base.Regex.Laws.{all}
use gof.Base.Replace.{replace_all}
use gof.J2rpc.Names.{is_upper, is_lower}
use gof.Fault.{Result, ok, err}
use gof.Base.Base64.Decoded.{IsByte}
use gof.G2util.JsonHelp.{Json, json_marshal_to_base64, json_unmarshal_from_base64}
use gof.G2util.JsonHelp.RoundTrip.{IsJson, json_unmarshal_from_base64-json_marshal_to_base64}
use gof.G2util.Validator.{valid_password, valid_username, valid_mobile, not_blank, is_digit}
use gof.G2util.Validator.Rules.{valid_password-rules}
use gof.G2util.Crypto.{Aes, crypt_key}
use gof.G2util.Crypto.Passwords.{IsAes, all_hex}

valid_password-rules_example : valid_password (codes "Passw0rd") ≡ (
    (leb 8 8 && (leb 8 24 && all not_blank (codes "Passw0rd")))
    && (any is_upper (codes "Passw0rd")
        && (any is_lower (codes "Passw0rd") && any is_digit (codes "Passw0rd"))))
valid_password-rules_example = valid_password-rules (codes "Passw0rd")

good_password : valid_password (codes "Passw0rd") ≡ true
unfolding valid_password flat_map
good_password = refl

blank_password : valid_password (codes "Pass w0rd") ≡ false
unfolding valid_password flat_map
blank_password = refl

good_mobile : valid_mobile (codes "13800138000") ≡ true
unfolding valid_mobile flat_map
good_mobile = refl

bad_mobile : valid_mobile (codes "12800138000") ≡ false
unfolding valid_mobile flat_map
bad_mobile = refl

-- the message speaks of digits and letters, and the rule takes an underscore too
underscored : valid_username (codes "ab_cd") ≡ true
unfolding valid_username flat_map
underscored = refl

key_first : take 16 crypt_key ≡ codes "3f756b58165611ec"
unfolding crypt_key replace_all
key_first = refl

-- a cipher that writes each character as so many zeros and a one
abbrev unary : ℕ → Text → Text
unary zero s = b'1' ∷ s
unary (suc n) s = b'0' ∷ unary n s

abbrev unary_text : Text → Text
unary_text [] = []
unary_text (c ∷ s) = unary c (unary_text s)

abbrev read_unary : ℕ → Text → Result Text
read_unary n [] = ok []
read_unary n (c ∷ s) =
    let longer = read_unary (suc n) s in
    let next = read_unary 0 s in
    if c == b'0' then longer else elim next [ err e ↦ err e | ok t ↦ ok (n ∷ t) ]

read_unary-unary :
    (n c : ℕ) (s t : Text) → read_unary 0 s ≡ ok t → read_unary n (unary c s) ≡ ok ((n + c) ∷ t)
read_unary-unary n zero s t h = ground (arith, h)
read_unary-unary n (suc c) s t h = ground (arith, read_unary-unary (suc n) c s t h)

read_unary-unary_text : (s : Text) → read_unary 0 (unary_text s) ≡ ok s
read_unary-unary_text [] = refl
read_unary-unary_text (c ∷ s) =
    ground (arith, read_unary-unary 0 c (unary_text s) s (read_unary-unary_text s))

unary_hex : (c : ℕ) (s : Text) → all_hex s ≡ true → all_hex (unary c s) ≡ true
unfolding all_hex
unary_hex zero s h = h
unary_hex (suc c) s h = unary_hex c s h

unary_text_hex : (s : Text) → all_hex (unary_text s) ≡ true
unfolding all_hex
unary_text_hex [] = refl
unary_text_hex (c ∷ s) = unary_hex c (unary_text s) (unary_text_hex s)

abbrev toy : Aes
toy = record {
  encrypt = λ k v. unary_text v;
  decrypt = λ k c. read_unary 0 c;
  cbc_encrypt = λ k v. unary_text v;
  cbc_decrypt = λ k c. read_unary 0 c;
}

toy-IsAes : IsAes toy
toy-IsAes = record {
  encrypt-hex = λ k v. unary_text_hex v;
  decrypt-encrypt = λ k v. read_unary-unary_text v;
}

-- JSON of Booleans
abbrev flags : Json Bool
flags = record {
  marshal = λ b. ok (if b then codes "true" else codes "false");
  marshal_indent = λ b. ok (if b then codes "true" else codes "false");
  unmarshal = λ t old. if text_eq t (codes "true") then ok true else ok false;
}

flags_bytes : (b : Bool) (t : Text) → flags.marshal b ≡ ok t → All IsByte t
unfolding IsByte
flags_bytes true t h =
    let e : codes "true" ≡ t = ground (arith, h) in
    Path.subst (λ x. All IsByte x) e (omega arith, (omega arith, (omega arith, (omega arith, tt))))
flags_bytes false t h =
    let e : codes "false" ≡ t = ground (arith, h) in
    Path.subst (λ x. All IsByte x) e
      (omega arith, (omega arith, (omega arith, (omega arith, (omega arith, tt)))))

flags-IsJson : IsJson flags
flags-IsJson = record { marshal-bytes = flags_bytes }

true_written : json_marshal_to_base64 flags true ≡ ok (codes "dHJ1ZQ==")
unfolding json_marshal_to_base64
true_written = refl

json_unmarshal_from_base64-json_marshal_to_base64_example :
    (bts : Text) × (flags.marshal true ≡ ok bts)
    × (json_unmarshal_from_base64 flags (codes "dHJ1ZQ==") false ≡ flags.unmarshal bts false)
json_unmarshal_from_base64-json_marshal_to_base64_example =
    json_unmarshal_from_base64-json_marshal_to_base64 flags flags-IsJson true false
      (codes "dHJ1ZQ==") true_written
