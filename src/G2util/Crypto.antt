-- ===== src/G2util/Crypto.antt =====
-- g2util/crypto.go: passwords encrypted by AES, which is a parameter. Of `strings.ToLower` and
-- `strings.ToUpper` the mapping of ASCII letters is modelled.
pub mod Passwords
use gof.Base.{ℕ, ◌-◌, [], map, if◌then◌else◌, take, Text, codes, text_eq}
use gof.Base.Replace.{replace_all}
use gof.J2rpc.Names.{to_lower, is_lower}
use gof.G2util.JsonTime.{trim, is_space}
use gof.Fault.{Err, plain, Result, ok, err, Done}

-- `goutil`: encryption by a key to hexadecimal digits, and back
pub record Aes : Type 0 where
  pub encrypt : Text → Text → Text
  pub decrypt : Text → Text → Result Text
  pub cbc_encrypt : Text → Text → Text
  pub cbc_decrypt : Text → Text → Result Text

abbrev pub key_text : Text
key_text = codes "3f756b58-1656-11ec-879b-3c7d0a0ab31b"

abbrev pub err_password : Err
err_password = plain (codes "密码错误")

-- `strings.ToUpper` of ASCII
unfoldable pub to_upper : ℕ → ℕ
to_upper c = if is_lower c then c - 32 else c

-- `Crypto.Key`: what the key becomes and gives
unfoldable pub key : Text → Text
unfolding replace_all trim is_space
key k = trim is_space (replace_all (codes "-") [] k)

-- `CryptKey`
unfoldable pub crypt_key : Text
unfolding key
crypt_key = key key_text

module _ (a : Aes) where
  -- `Encrypt` and `Decrypt` of a `Crypto` with a key, and the same in CBC mode
  unfoldable pub encrypt : Text → Text → Text
  unfolding key
  encrypt k val = a.encrypt (key k) val

  unfoldable pub decrypt : Text → Text → Result Text
  unfolding key
  decrypt k ciphertext = a.decrypt (key k) ciphertext

  unfoldable pub encrypt_cbc : Text → Text → Text
  unfolding key
  encrypt_cbc k val = a.cbc_encrypt (key k) val

  unfoldable pub decrypt_cbc : Text → Text → Result Text
  unfolding key
  decrypt_cbc k ciphertext = a.cbc_decrypt (key k) ciphertext

  -- `EncryptPassword`
  unfoldable pub encrypt_password : Text → Text
  unfolding encrypt crypt_key to_upper
  encrypt_password p = map to_upper (encrypt (take 16 crypt_key) p)

  -- `DecryptPassword`
  unfoldable pub decrypt_password : Text → Result Text
  unfolding decrypt crypt_key to_lower
  decrypt_password p = decrypt (take 16 crypt_key) (map to_lower p)

  -- `CheckPassword`
  unfoldable pub check_password : Text → Text → Done
  unfolding decrypt_password
  check_password p c = elim (decrypt_password c) [
    | err e ↦ err e
    | ok s ↦ if text_eq s p then ok tt else err err_password
  ]
