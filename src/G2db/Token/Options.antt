-- ===== src/G2db/Token/Options.antt =====
-- g2db/token.go: the options that a `Token` starts from, and what keeps two tokens apart.
use gof.Base.{
  ℕ, suc, ◌*◌, ◌/◌, ◌≡◌, refl, sym, ap, ◌∙◌, ◌≢◌, Bool, true, false, not, ◌&&◌, [], ◌∷◌, ◌++◌,
  append_assoc, arith, ◌==◌, length, take, Text, codes,
}
use gof.Base.Int.{ℤ, pos, negsuc}
use gof.Base.Decimal.{decimal, int_text}
use gof.Base.Decimal.Digits.{all_digits, all_digits-decimal, read, read-decimal}
use gof.G2db.Token.{TokenOption, mem_cache_key}

abbrev pub sys_key : Text
sys_key = codes "P6UEgd7ln9mpMz5hGWYqT21cSHOtkJQZ"

-- ten days in nanoseconds
abbrev pub default_token_timeout : ℕ
default_token_timeout = 24 * 10 * 3600 * 1000000000

-- `redisCacheKey`, behind the application's name
unfoldable pub redis_cache_key : Text → Text → Text
redis_cache_key [] cache_key = cache_key
redis_cache_key (c ∷ name) cache_key = c ∷ name ++ (b':' ∷ cache_key)

-- the option of a token with its cache key
unfoldable pub default_option : Text → Text → TokenOption
unfolding redis_cache_key
default_option name cache_key = record {
  key = redis_cache_key name cache_key;
  timeout = default_token_timeout;
  max_refresh = default_token_timeout / 2;
  multi_login = λ id. false;
}

-- `Constructor` and `NewCopy`, in an application with a name
unfoldable pub constructed : Text → TokenOption
unfolding default_option
constructed name = default_option name (codes "h:token")

unfoldable pub new_copy : Text → Text → TokenOption
unfolding default_option
new_copy name key = default_option name key

-- `EncryptKey`
unfoldable pub encrypt_key : Text
encrypt_key = take 16 sys_key

-- the key is as long as AES wants it
length-encrypt_key : length encrypt_key ≡ 16
unfolding encrypt_key
length-encrypt_key = refl

-- Ids are printed without a colon, and no two alike.
abbrev no_colon : Text → Bool
no_colon [] = true
no_colon (c ∷ s) = not (c == b':') && no_colon s

no_colon-all_digits : (s : Text) → all_digits s ≡ true → no_colon s ≡ true
unfolding all_digits
no_colon-all_digits [] h = refl
no_colon-all_digits (c ∷ s) h = ground (arith, h, no_colon-all_digits s)

no_colon-int_text : (i : ℤ) → no_colon (int_text i) ≡ true
unfolding int_text
no_colon-int_text (pos n) = no_colon-all_digits (decimal n) (all_digits-decimal n)
no_colon-int_text (negsuc n) = no_colon-all_digits (decimal (suc n)) (all_digits-decimal (suc n))

decimal_injective : (m n : ℕ) → decimal m ≡ decimal n → m ≡ n
decimal_injective m n h = sym (read-decimal m) ∙ ap (read 0) h ∙ read-decimal n

not_minus : (m n : ℕ) → decimal m ≢ b'-' ∷ decimal n
not_minus m n h = minus (rw (← h) (all_digits-decimal m))
  where
    minus : all_digits (b'-' ∷ decimal n) ≢ true
    minus e = (unfold all_digits in ground (arith, e))

int_text_injective : (i j : ℤ) → int_text i ≡ int_text j → i ≡ j
unfolding int_text
int_text_injective (pos m) (pos n) h = ap pos (decimal_injective m n h)
int_text_injective (pos m) (negsuc n) h = absurd (not_minus m (suc n) h)
int_text_injective (negsuc m) (pos n) h = absurd (not_minus n (suc m) (sym h))
int_text_injective (negsuc m) (negsuc n) h =
    let e : suc m ≡ suc n = decimal_injective (suc m) (suc n) (ground (arith, h)) in
    ap negsuc (omega (arith, e))

colon_inside : (u s : Text) → no_colon (u ++ (b':' ∷ s)) ≡ false
colon_inside [] s = refl
colon_inside (c ∷ u) s = ground (arith, colon_inside u s)

-- A text is cut at its last colon in one way.
last_colon :
    (u v s t : Text)
    → no_colon s ≡ true
    → no_colon t ≡ true
    → u ++ (b':' ∷ s) ≡ v ++ (b':' ∷ t)
    → (u ≡ v) × (s ≡ t)
last_colon [] [] s t hs ht e = (refl, ground (arith, e))
last_colon [] (d ∷ v) s t hs ht e = ground (arith, e, hs, colon_inside v t)
last_colon (c ∷ u) [] s t hs ht e = ground (arith, e, ht, colon_inside u s)
last_colon (c ∷ u) (d ∷ v) s t hs ht e =
    let (same, rest) = last_colon u v s t hs ht (ground (arith, e)) in
    (ground (arith, e, same), rest)

append_cancel : (p a b : Text) → p ++ a ≡ p ++ b → a ≡ b
append_cancel [] a b h = h
append_cancel (c ∷ p) a b h = append_cancel p a b (ground (arith, h))

redis_cache_key_injective :
    (name a b : Text) → redis_cache_key name a ≡ redis_cache_key name b → a ≡ b
unfolding redis_cache_key
redis_cache_key_injective [] a b h = h
redis_cache_key_injective (c ∷ name) a b h =
    let e : b':' ∷ a ≡ b':' ∷ b = append_cancel (c ∷ name) (b':' ∷ a) (b':' ∷ b) h in
    ground (arith, e)

-- Two tokens of one application whose caches or users differ never share an entry of the memory cache:
-- from the key of an entry, the cache key of the token and the id of the user are read back.
pub mem_cache_key_injective :
    (name a b : Text) (i j : ℤ)
    → mem_cache_key (new_copy name a) i ≡ mem_cache_key (new_copy name b) j
    → (a ≡ b) × (i ≡ j)
mem_cache_key_injective name a b i j h =
    let k1 = redis_cache_key name a in
    let k2 = redis_cache_key name b in
    let given : k1 ++ (b':' ∷ b':' ∷ int_text i) ≡ k2 ++ (b':' ∷ b':' ∷ int_text j) =
      (unfold mem_cache_key new_copy in h) in
    let whole : (k1 ++ b':' ∷ []) ++ (b':' ∷ int_text i)
        ≡ (k2 ++ b':' ∷ []) ++ (b':' ∷ int_text j) =
      append_assoc k1 (b':' ∷ []) (b':' ∷ int_text i)
      ∙ given
      ∙ sym (append_assoc k2 (b':' ∷ []) (b':' ∷ int_text j)) in
    let (keys, ids) =
      last_colon (k1 ++ b':' ∷ []) (k2 ++ b':' ∷ []) (int_text i) (int_text j) (no_colon-int_text i)
        (no_colon-int_text j) whole in
    (
      redis_cache_key_injective name a b (last_colon k1 k2 [] [] refl refl keys).0,
      int_text_injective i j ids,
    )
