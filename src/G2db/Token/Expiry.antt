-- ===== src/G2db/Token/Expiry.antt =====
-- The expiry of a token, and its renewal.
use gof.Base.{ℕ, ◌+◌, ◌≤◌, ◌<◌, ◌≡◌, refl, List, [], ◌∷◌, arith, Text, codes, text_eq_refl}
use gof.Base.Int.{ℤ}
use gof.Base.Decimal.{int_text}
use gof.Fault.{redis_nil, plain, ok, err}
use gof.G2db.Token.{
  TokenData, TokenOption, Redis, Codec, save, remove_token_data, check_token, mem_cache_key,
}

-- What Redis promises while it does not fail: its hashes keep what was set, and publishing does not
-- touch them.
pub record IsRedis {W : Type 0} (r : Redis W) : Type 0 where
  pub hset_ok : (k f v : Text) (w : W) → (r.hset k f v w).0 ≡ ok tt
  pub hget-hset : (k f v : Text) (w : W) → r.hget k f (r.hset k f v w).1 ≡ ok v
  pub hdel_ok : (k f : Text) (w : W) → (r.hdel k f w).0 ≡ ok tt
  pub hget-hdel : (k f : Text) (w : W) → r.hget k f (r.hdel k f w).1 ≡ err redis_nil
  pub publish_ok : (ks : List Text) (w : W) → (r.publish ks w).0 ≡ ok tt
  pub hget-publish :
      (k f : Text) (ks : List Text) (w : W) → r.hget k f (r.publish ks w).1 ≡ r.hget k f w

module _ {W : Type 0} (c : Codec) (r : Redis W) (o : TokenOption) (laws : IsRedis r) (w : W) where
  pub save_ok : (td : TokenData) → (save c r o td w).0 ≡ ok tt
  unfolding save
  save_ok td =
      let w1 = (r.hset o.key (int_text td.id) (c.dump td) w).1 in
      ground (
        arith,
        laws.hset_ok o.key (int_text td.id) (c.dump td) w,
        laws.publish_ok (mem_cache_key o td.id ∷ []) w1,
      )

  pub hget-save :
      (td : TokenData) → r.hget o.key (int_text td.id) (save c r o td w).1 ≡ ok (c.dump td)
  unfolding save
  hget-save td =
      let w1 = (r.hset o.key (int_text td.id) (c.dump td) w).1 in
      ground (
        arith,
        laws.hset_ok o.key (int_text td.id) (c.dump td) w,
        laws.hget-hset o.key (int_text td.id) (c.dump td) w,
        laws.hget-publish o.key (int_text td.id) (mem_cache_key o td.id ∷ []) w1,
      )

  remove_ok : (id : ℤ) → (remove_token_data r o id w).0 ≡ ok tt
  unfolding remove_token_data
  remove_ok id =
      let w1 = (r.hdel o.key (int_text id) w).1 in
      ground
        (arith, laws.hdel_ok o.key (int_text id) w, laws.publish_ok (mem_cache_key o id ∷ []) w1)

  pub hget-remove :
      (id : ℤ) → r.hget o.key (int_text id) (remove_token_data r o id w).1 ≡ err redis_nil
  unfolding remove_token_data
  hget-remove id =
      let w1 = (r.hdel o.key (int_text id) w).1 in
      ground (
        arith,
        laws.hdel_ok o.key (int_text id) w,
        laws.hget-hdel o.key (int_text id) w,
        laws.hget-publish o.key (int_text id) (mem_cache_key o id ∷ []) w1,
      )

  -- Over a Redis that keeps its promises: a stored token that has expired, sent as it is stored, is
  -- refused and taken out of Redis.
  pub check_token_expired :
      (now : ℕ) (id : ℤ) (td : TokenData)
      → td.expire < now
      → ((check_token c r o now id td.token td w).0 ≡ err (plain (codes "过期的令牌")))
        × (r.hget o.key (int_text id) (check_token c r o now id td.token td w).1 ≡ err redis_nil)
  unfolding check_token
  check_token_expired now id td h = (
    ground (arith, text_eq_refl td.token, remove_ok id),
    ground (arith, text_eq_refl td.token, remove_ok id, hget-remove id),
  )

  -- Over a Redis that keeps its promises: a stored token that has not expired, with less than the
  -- limit left to live and sent as it is stored, is accepted and renewed for the whole timeout, in
  -- the answer and in Redis.
  pub check_token_renewed :
      (now : ℕ) (id : ℤ) (td : TokenData)
      → now ≤ td.expire
      → td.expire < now + o.max_refresh
      → (out : TokenData) × ((check_token c r o now id td.token td w).0 ≡ ok out)
        × (out.id ≡ td.id)
        × (out.token ≡ td.token)
        × (out.expire ≡ now + o.timeout)
        × (r.hget o.key (int_text td.id) (check_token c r o now id td.token td w).1
            ≡ ok (c.dump out))
  check_token_renewed now id td h k =
      let renewed : TokenData = record td { expire = now + o.timeout } in
      let saved = save_ok renewed in
      let held = hget-save renewed in
      (
        renewed,
        (unfold check_token in ground (arith, text_eq_refl td.token, saved)),
        refl,
        refl,
        refl,
        (unfold check_token in ground (arith, text_eq_refl td.token, saved, held)),
      )

  -- With more than that left, it is accepted as it is, and nothing changes.
  pub check_token_kept :
      (now : ℕ) (id : ℤ) (td : TokenData)
      → now + o.max_refresh ≤ td.expire
      → check_token c r o now id td.token td w ≡ (ok td, w)
  unfolding check_token
  check_token_kept now id td h = ground (arith, text_eq_refl td.token)
