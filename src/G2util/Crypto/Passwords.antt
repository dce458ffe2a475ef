-- ===== src/G2util/Crypto/Passwords.antt =====
-- Checked passwords.
use gof.Base.{
  ℕ, ◌≡◌, refl, Bool, true, ◌&&◌, ◌||◌, [], ◌∷◌, map, arith, leb, if◌then◌else◌, take, Text,
  text_eq,
}
use gof.J2rpc.Names.{to_lower, is_lower, is_upper}
use gof.Fault.{ok, err}
use gof.G2util.Crypto.{
  Aes, err_password, to_upper, encrypt, decrypt, encrypt_password, decrypt_password, check_password,
  crypt_key, key,
}

-- a digit or a small letter up to `f`
unfoldable pub is_hex : ℕ → Bool
is_hex c = (leb b'0' c && leb c b'9') || (leb b'a' c && leb c b'f')

unfoldable pub all_hex : Text → Bool
unfolding is_hex
all_hex [] = true
all_hex (c ∷ s) = is_hex c && all_hex s

-- What is assumed of AES: a ciphertext is hexadecimal in small letters, and reads back.
pub record IsAes (a : Aes) : Type 0 where
  pub encrypt-hex : (k val : Text) → all_hex (a.encrypt k val) ≡ true
  pub decrypt-encrypt : (k val : Text) → a.decrypt k (a.encrypt k val) ≡ ok val

lower_upper : (s : Text) → all_hex s ≡ true → map to_lower (map to_upper s) ≡ s
unfolding to_lower to_upper is_lower is_upper all_hex is_hex
lower_upper [] h = refl
lower_upper (c ∷ s) h = ground (arith, h, lower_upper s)

module _ (a : Aes) (laws : IsAes a) where
  decrypt_password-encrypt_password : (q : Text) → decrypt_password a (encrypt_password a q) ≡ ok q
  unfolding decrypt_password encrypt_password encrypt decrypt
  decrypt_password-encrypt_password q =
      let k = key (take 16 crypt_key) in
      rw (lower_upper (a.encrypt k q) (laws.encrypt-hex k q)) (laws.decrypt-encrypt k q)

  -- With a cipher that reads back and writes small hexadecimal digits: of a password that was encrypted
  -- the check accepts that password and no other.
  pub check_password-encrypt_password :
      (p q : Text)
      → check_password a p (encrypt_password a q)
        ≡ (if text_eq q p then ok tt else err err_password)
  unfolding check_password
  check_password-encrypt_password p q = ground (arith, decrypt_password-encrypt_password q)
