-- ===== src/G2db/Token/Login.antt =====
-- From a login to a logout.
use gof.Base.{
  ℕ, ◌+◌, ◌≤◌, ◌≡◌, refl, ◌≢◌, inl, inr, false, [], arith, ltb, ltb→lt, Bool-cases, Text, codes,
  text_eq, text_eq_iff, text_eq_refl,
}
use gof.Base.Int.{ℤ}
use gof.Base.Decimal.{int_text}
use gof.Fault.{not_found, plain, ok, err}
use gof.G2cache.Store.{Store, IsStore}
use gof.G2db.Cache.{cache_null, get_or_store}
use gof.G2db.Token.{
  TokenData, TokenOption, Redis, Codec, Headers, mem_cache_key, token_of, get_id_by_token,
  load_token, as_token_error, check_token, check_bytes, cache_verify, authenticate, save,
  remove_token_data, generate_td, fresh_login, after_login,
}
use gof.G2db.Cache.ReadThrough.{get_or_store_miss}
use gof.G2db.Token.Expiry.{
  IsRedis, save_ok, hget-save, hget-remove, check_token_renewed, check_token_kept,
}

-- what the libraries promise about encryption and JSON
pub record IsCodec (c : Codec) : Type 0 where
  pub decrypt-encrypt : (t : Text) → c.decrypt (c.to_lower (c.to_upper (c.encrypt t))) ≡ ok t
  pub parse-dump : (td : TokenData) → c.parse (c.dump td) ≡ ok td
  pub dump-ne-null : (td : TokenData) → c.dump td ≢ cache_null

module _ {W : Type 0} (c : Codec) (s : Store W) (r : Redis W) (o : TokenOption) (codec : IsCodec c)
    (store : IsStore s) (redis : IsRedis r) (id : ℤ) (w : W) where
  -- the data that Redis holds is read through an empty cache
  read_through :
      (d : Text)
      → s.get (mem_cache_key o id) w ≡ err not_found
      → r.hget o.key (int_text id) w ≡ ok d
      → get_or_store s (mem_cache_key o id) (load_token r o id) w
        ≡ (ok d, (s.set (mem_cache_key o id) d w).1)
  read_through d miss held =
      get_or_store_miss s store (mem_cache_key o id) (load_token r o id) w d w miss
        (unfold load_token in ground (arith, held))

  not_null : (td : TokenData) → text_eq (c.dump td) cache_null ≡ false
  not_null td = elim (Bool-cases (text_eq (c.dump td) cache_null)) [
    | inr f ↦ f
    | inl e ↦ absurd (codec.dump-ne-null td ((text_eq_iff (c.dump td) cache_null).0 e))
  ]

  check_token_alive :
      (now : ℕ) (i : ℤ) (td : TokenData) (v : W)
      → now ≤ td.expire
      → (out : TokenData) × ((check_token c r o now i td.token td v).0 ≡ ok out) × (out.id ≡ td.id)
  check_token_alive now i td v alive = elim (Bool-cases (ltb td.expire (now + o.max_refresh))) [
    | inl l ↦
        (let (out, e, a, b, x, y) =
            check_token_renewed c r o redis v now i td alive (ltb→lt _ _ l) in
          (out, e, a))
    | inr g ↦
        (let e = check_token_kept c r o redis v now i td (ground (arith, g)) in
          (td, ground (arith, e), refl))
  ]

  cache_verify_alive :
      (now : ℕ) (td : TokenData)
      → s.get (mem_cache_key o id) w ≡ err not_found
      → r.hget o.key (int_text id) w ≡ ok (c.dump td)
      → now ≤ td.expire
      → (out : TokenData) × ((cache_verify c s r o now id td.token w).0 ≡ ok out) × (out.id ≡ td.id)
  cache_verify_alive now td miss held alive =
      let stored = (s.set (mem_cache_key o id) (c.dump td) w).1 in
      let (out, good, same) = check_token_alive now id td stored alive in
      (
        out,
        (unfold cache_verify check_bytes in
            ground
              (arith, read_through (c.dump td) miss held, not_null td, codec.parse-dump td, good)),
        same,
      )

  -- Over a cache, a Redis and libraries that keep their promises: once a user has logged out and
  -- the deletion has reached the cache, no token of the user is accepted, whatever it is.
  pub cache_verify_logged_out :
      (now : ℕ) (text : Text)
      → s.get (mem_cache_key o id) (remove_token_data r o id w).1 ≡ err not_found
      → (cache_verify c s r o now id text (remove_token_data r o id w).1).0
        ≡ err (plain (codes "未知的令牌"))
  cache_verify_logged_out now text miss =
      let v = (remove_token_data r o id w).1 in
      let gone : load_token r o id v ≡ (ok cache_null, v) =
        unfold load_token in ground (arith, hget-remove c r o redis w id) in
      unfold cache_verify check_bytes in
      ground (
        arith,
        get_or_store_miss s store (mem_cache_key o id) (load_token r o id) v cache_null v miss gone,
        text_eq_refl cache_null,
      )

login_run :
    {W : Type 0} (c : Codec) (r : Redis W) (o : TokenOption) (redis : IsRedis r) (id : ℤ) (w : W)
    (now : ℕ)
    → o.multi_login id ≡ false
    → after_login c r o now id w
      ≡ (ok (generate_td c o now id), (save c r o (generate_td c o now id) w).1)
login_run c r o redis id w now single =
    let saved = save_ok c r o redis w (generate_td c o now id) in
    unfold after_login fresh_login in ground (arith, single, saved)

read_own_token :
    (c : Codec) (o : TokenOption) (codec : IsCodec c) (id : ℤ) (now : ℕ) (t : Text)
    → t ≡ (generate_td c o now id).token
    → c.id_of_text (int_text id) ≡ id
    → get_id_by_token c t ≡ ok id
read_own_token c o codec id now t sent number =
    unfold get_id_by_token generate_td in
    ground (arith, sent, codec.decrypt-encrypt (int_text id), number)

-- A user who logs in can authenticate with the token of the login until it expires, over a cache, a
-- Redis and libraries that keep their promises: after a login that may not share tokens, once the
-- deletion has reached the cache, if the user's id is read back from its decimals, a request that
-- carries the token, which is not empty, is let through as the user, at any time up to the expiry.
pub authenticate-after_login :
    {W : Type 0} (c : Codec) (s : Store W) (r : Redis W) (o : TokenOption) (codec : IsCodec c)
    (store : IsStore s) (redis : IsRedis r) (id : ℤ) (w : W) (now later : ℕ) (h : Headers)
    → o.multi_login id ≡ false
    → c.id_of_text (int_text id) ≡ id
    → s.get (mem_cache_key o id) (after_login c r o now id w).1 ≡ err not_found
    → token_of h ≡ (generate_td c o now id).token
    → token_of h ≢ []
    → later ≤ now + o.timeout
    → ((after_login c r o now id w).0 ≡ ok (generate_td c o now id))
      × ((authenticate c s r o later h (after_login c r o now id w).1).0 ≡ ok (token_of h, id))
authenticate-after_login c s r o codec store redis id w now later h single number miss sent full
      alive =
    let td = generate_td c o now id in
    let v = (save c r o td w).1 in
    let ran : after_login c r o now id w ≡ (ok td, v) = login_run c r o redis id w now single in
    let read : get_id_by_token c (token_of h) ≡ ok id =
      read_own_token c o codec id now (token_of h) sent number in
    let held : r.hget o.key (int_text id) v ≡ ok (c.dump td) =
      (unfold generate_td in hget-save c r o redis w td) in
    let gone : s.get (mem_cache_key o id) v ≡ err not_found = ground (arith, ran, miss) in
    let own : (generate_td c o now id).token ≡ td.token = refl in
    let alive' : later ≤ td.expire = (unfold generate_td in alive) in
    let (out, good, same) =
      cache_verify_alive c s r o codec store redis id v later td gone held alive' in
    let who : td.id ≡ id = (unfold generate_td in refl) in
    (
      ground (arith, ran),
      (unfold authenticate as_token_error in
          ground (arith, ran, read, good, same, sent, who, text_eq_iff (token_of h) [])),
    )
