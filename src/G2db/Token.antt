-- ===== src/G2db/Token.antt =====
-- g2db/token.go: tokens kept in a Redis hash, with the memory cache in front of it. Times are
-- nanoseconds since the epoch.
pub mod Verify
pub mod Expiry
pub mod Login
pub mod Options
use gof.Base.{
  ℕ, ◌+◌, ◌-◌, Bool, not, Option, none, some, List, [], ◌∷◌, ◌++◌, ltb, if◌then◌else◌, Text, codes,
  text_eq,
}
use gof.Base.Int.{ℤ}
use gof.Base.Decimal.{int_text}
use gof.Base.Replace.{replace_all}
use gof.Fault.{
  redis_nil, token, plain, err_text, Result, ok, err, Action, Done, pure, raise, lift, ◌>>=◌, ◌>>◌,
}
use gof.G2cache.Store.{Store}
use gof.G2db.Cache.{cache_null, get_or_store}

-- `TokenData`
pub record TokenData : Type 0 where
  pub id : ℤ
  pub token : Text
  pub expire : ℕ

-- `TokenOption`; `key` is what `redisCacheKey` gives: the cache key behind the application's name
pub record TokenOption : Type 0 where
  pub key : Text
  pub timeout : ℕ
  pub max_refresh : ℕ
  pub multi_login : ℤ → Bool

-- The Redis client over a world, its hashes and the publication of keys to delete.
pub record Redis (W : Type 0) : Type 0 where
  pub hget : Text → Text → W → Result Text
  pub hset : Text → Text → Text → Action W (Unit {0})
  pub hdel : Text → Text → Action W (Unit {0})
  pub publish : List Text → Action W (Unit {0})

-- The libraries: encryption under the option's key, JSON of token data, and the reading of an id,
-- which gives 0 on a text that is no number.
pub record Codec : Type 0 where
  pub encrypt : Text → Text
  pub decrypt : Text → Result Text
  pub to_upper : Text → Text
  pub to_lower : Text → Text
  pub dump : TokenData → Text
  pub parse : Text → Result TokenData
  pub id_of_text : Text → ℤ

-- what `verify` reads of the request
pub record Headers : Type 0 where
  pub token : Text
  pub authorization : Text
  pub query : Text

-- `memCacheKey`
unfoldable pub mem_cache_key : TokenOption → ℤ → Text
mem_cache_key o id = o.key ++ (codes "::" ++ int_text id)

-- where `verify` takes the token from, without `Bearer `
unfoldable pub token_of : Headers → Text
token_of h = replace_all (codes "Bearer ") [] (
    if not (text_eq h.token [])
    then h.token
    else if not (text_eq h.authorization [])
    then h.authorization
    else h.query)

-- an error of the authentication, behind a text, as a `TokenError`
unfoldable pub as_token_error : {A : Type 0} → Text → Result A → Result A
as_token_error text (ok a) = ok a
as_token_error text (err e) = err (token (text ++ err_text e))

-- `getIDByToken`
unfoldable pub get_id_by_token : Codec → Text → Result ℤ
get_id_by_token c t = elim (c.decrypt (c.to_lower t)) [ ok d ↦ ok (c.id_of_text d) | err e ↦ err e ]

-- `generateTd` at the time `now`
unfoldable pub generate_td : Codec → TokenOption → ℕ → ℤ → TokenData
generate_td c o now id = record {
  id = id;
  token = c.to_upper (c.encrypt (int_text id));
  expire = now + o.timeout;
}

module _ {W : Type 0} where
  -- the loop over the further checks of `verify`; a nil function is skipped
  unfoldable pub run_checks : List (Option (Action W (Unit {0}))) → Action W (Unit {0})
  run_checks [] = pure tt
  run_checks (none ∷ fns) = run_checks fns
  run_checks (some fn ∷ fns) = fn >>= λ _. run_checks fns

module _ {W : Type 0} (r : Redis W) (o : TokenOption) where
  -- `removeTokenData`, `Logout`
  unfoldable pub remove_token_data : ℤ → Action W (Unit {0})
  unfolding mem_cache_key
  remove_token_data id = do r.hdel o.key (int_text id); r.publish (mem_cache_key o id ∷ [])

  -- the load of `cacheVerify`: a missing token is cached as null
  unfoldable pub load_token : ℤ → Action W Text
  load_token id w = elim (r.hget o.key (int_text id) w) [
    | ok t ↦ (ok t, w)
    | err redis_nil ↦ (ok cache_null, w)
    | err e ↦ (err e, w)
  ]

module _ {W : Type 0} (c : Codec) (r : Redis W) (o : TokenOption) where
  -- `TokenData.write2redis`
  unfoldable pub save : TokenData → Action W (Unit {0})
  unfolding mem_cache_key
  save td = do r.hset o.key (int_text td.id) (c.dump td); r.publish (mem_cache_key o td.id ∷ [])

  -- the end of `Token.write2redis`: a new token
  unfoldable pub fresh_login : ℕ → ℤ → Action W TokenData
  unfolding generate_td save
  fresh_login now id = do save (generate_td c o now id); pure (generate_td c o now id)

  -- `AfterLogin`, `Token.write2redis`: with several logins allowed, a stored token is given again
  unfoldable pub after_login : ℕ → ℤ → Action W TokenData
  unfolding fresh_login
  after_login now id w =
      if o.multi_login id
      then elim (r.hget o.key (int_text id) w) [
        | ok t ↦ (c.parse t, w)
        | err e ↦ fresh_login now id w
      ]
      else fresh_login now id w

  -- the checks of `cacheVerify` on the stored token
  unfoldable pub check_token : ℕ → ℤ → Text → TokenData → Action W TokenData
  unfolding remove_token_data save
  check_token now id text td =
      if not (text_eq td.token text)
      then raise (plain (codes "无效的令牌"))
      else if ltb td.expire now
      then (do remove_token_data r o id; raise (plain (codes "过期的令牌")))
      else if ltb (td.expire - now) o.max_refresh
      then (do
        save (record td { expire = now + o.timeout })
        pure (record td { expire = now + o.timeout }))
      else pure td

  -- the checks of `cacheVerify` on the bytes of the cache
  unfoldable pub check_bytes : ℕ → ℤ → Text → Text → Action W TokenData
  unfolding check_token
  check_bytes now id text bytes =
      if text_eq bytes cache_null
      then raise (plain (codes "未知的令牌"))
      else (do td ← lift (c.parse bytes); check_token now id text td)

module _ {W : Type 0} (c : Codec) (s : Store W) (r : Redis W) (o : TokenOption) where
  -- `cacheVerify`
  unfoldable pub cache_verify : ℕ → ℤ → Text → Action W TokenData
  unfolding mem_cache_key load_token check_bytes
  cache_verify now id text = do
    bytes ← get_or_store s (mem_cache_key o id) (load_token r o id)
    check_bytes c r o now id text bytes

  -- `verify` up to the context's values, which are the token and the id
  unfoldable pub authenticate : ℕ → Headers → Action W (Text × ℤ)
  unfolding token_of get_id_by_token cache_verify as_token_error
  authenticate now h =
      let text = token_of h in
      if text_eq text [] then raise (token (codes "非法访问")) else (do
        id ← lift (as_token_error (codes "无效的令牌:") (get_id_by_token c text))
        td ← (λ w.
            let (res, w') = cache_verify now id text w in
            (as_token_error (codes "身份认证失败:") res, w'))
        pure (text, td.id))

  -- `verify`: what it sets on the context, and its error
  unfoldable pub verify :
      ℕ → Headers → List (Option (Action W (Unit {0}))) → W → Option (Text × ℤ) × Done × W
  unfolding authenticate run_checks
  verify now h fns w =
      let (res, w') = authenticate now h w in
      elim res [
        | err e ↦ (none, err e, w')
        | ok p ↦ (let (done, w2) = run_checks fns w' in (some p, done, w2))
      ]
