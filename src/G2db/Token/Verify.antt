-- ===== src/G2db/Token/Verify.antt =====
-- Whom `verify` lets through.
use gof.Base.{
  ℕ, ◌≤◌, ◌≡◌, sym, ◌∙◌, inl, inr, [], ◌++◌, arith, Bool-cases, Text, codes, text_eq, text_eq_iff,
}
use gof.Base.Int.{ℤ}
use gof.Fault.{Err, token, Result, ok, err, Result-cases, err_text}
use gof.G2cache.Store.{Store}
use gof.G2db.Cache.{cache_null, get_or_store}
use gof.G2db.Token.{
  TokenData, TokenOption, Redis, Codec, Headers, mem_cache_key, token_of, get_id_by_token,
  load_token, as_token_error, check_token, check_bytes, cache_verify, authenticate,
}

module _ {W : Type 0} (c : Codec) (s : Store W) (r : Redis W) (o : TokenOption) (now : ℕ) where
  check_token_sound :
      (id : ℤ) (text : Text) (td : TokenData) (w : W) {out : TokenData} {w' : W}
      → check_token c r o now id text td w ≡ (ok out, w')
      → (td.token ≡ text) × (now ≤ td.expire) × (out.id ≡ td.id)
  unfolding check_token
  check_token_sound id text td w h = (
    ground (arith, text_eq_iff td.token text),
    ground (arith, text_eq_iff td.token text),
    ground (arith, text_eq_iff td.token text),
  )

  -- What stands behind a success of the authentication: the token of the request decrypts to an id,
  -- and the cache, or Redis through it, holds data for the id with this very token and an expiry
  -- that has not passed, whose id is the one that is given to the context.
  pub record Evidence (h : Headers) (w : W) (text : Text) (uid : ℤ) : Type 0 where
    pub id : ℤ
    pub bytes : Text
    pub stored : TokenData
    pub sent : text ≡ token_of h
    pub decrypts : get_id_by_token c text ≡ ok id
    pub cached : (get_or_store s (mem_cache_key o id) (load_token r o id) w).0 ≡ ok bytes
    pub parses : c.parse bytes ≡ ok stored
    pub same : stored.token ≡ text
    pub alive : now ≤ stored.expire
    pub owner : stored.id ≡ uid

  check_bytes_sound :
      (id : ℤ) (text bytes : Text) (w : W) {out : TokenData} {w' : W}
      → check_bytes c r o now id text bytes w ≡ (ok out, w')
      → (td : TokenData) × (c.parse bytes ≡ ok td)
        × (td.token ≡ text)
        × (now ≤ td.expire)
        × (out.id ≡ td.id)
  check_bytes_sound id text bytes w {out} {w'} h = elim (Bool-cases (text_eq bytes cache_null)) [
    | inl t ↦ (unfold check_bytes in ground (arith, t, h))
    | inr f ↦ elim (Result-cases (c.parse bytes)) [
      | inr (x, q) ↦ (unfold check_bytes in ground (arith, f, q, h))
      | inl (td, q) ↦
          (let (a, b, d) =
              check_token_sound id text td w {out = out} {w' = w'}
                (unfold check_bytes in ground (arith, f, q, h)) in
            (td, q, a, b, d))
    ]
  ]

  cache_verify_sound :
      (id : ℤ) (text : Text) (w : W) (out : TokenData)
      → (cache_verify c s r o now id text w).0 ≡ ok out
      → (bytes : Text) × (td : TokenData) × ((get_or_store s
            (mem_cache_key o id)
            (load_token r o id)
            w).0
          ≡ ok bytes)
        × (c.parse bytes ≡ ok td)
        × (td.token ≡ text)
        × (now ≤ td.expire)
        × (out.id ≡ td.id)
  cache_verify_sound id text w out h =
      let got = get_or_store s (mem_cache_key o id) (load_token r o id) w in
      elim (Result-cases got.0) [
        | inr (x, q) ↦ (unfold cache_verify in ground (arith, q, h))
        | inl (bytes, q) ↦
            (let checked = check_bytes c r o now id text bytes got.1 in
              let e : checked.0 ≡ ok out = (unfold cache_verify in ground (arith, q, h)) in
              let (td, p, a, b, d) =
                check_bytes_sound id text bytes got.1 {out = out} {w' = checked.1}
                  (ground (arith, e)) in
              (bytes, td, q, p, a, b, d))
      ]

  -- Nobody is let through without evidence: if the authentication succeeds, the token of the request
  -- decrypts to an id, and the cache, or Redis through it, holds data for that id with this very
  -- token and an expiry that has not passed, whose owner is the id that is given on.
  pub authenticate_sound :
      (h : Headers) (w : W) {text : Text} {uid : ℤ} {w' : W}
      → authenticate c s r o now h w ≡ (ok (text, uid), w')
      → Evidence h w text uid
  authenticate_sound h w {text} {uid} {w'} e = elim (Bool-cases (text_eq (token_of h) [])) [
    | inl t ↦ (unfold authenticate in ground (arith, t, e))
    | inr f ↦ elim (Result-cases (get_id_by_token c (token_of h))) [
      | inr (x, q) ↦ (unfold authenticate as_token_error in ground (arith, f, q, e))
      | inl (id, q) ↦ elim (Result-cases (cache_verify c s r o now id (token_of h) w).0) [
        | inr (x, z) ↦ (unfold authenticate as_token_error in ground (arith, f, q, z, e))
        | inl (out, z) ↦
            (let (bytes, td, got, p, a, b, d) = cache_verify_sound id (token_of h) w out z in
              let sent : text ≡ token_of h =
                (unfold authenticate as_token_error in ground (arith, f, q, z, e)) in
              let uid_out : uid ≡ out.id =
                (unfold authenticate as_token_error in ground (arith, f, q, z, e)) in
              record {
                id = id;
                bytes = bytes;
                stored = td;
                sent = sent;
                decrypts = rw sent q;
                cached = got;
                parses = p;
                same = a ∙ sym sent;
                alive = b;
                owner = sym (uid_out ∙ d);
              })
      ]
    ]
  ]

  as_token_error_err :
      {A : Type 0} (text : Text) (res : Result A) (e : Err)
      → as_token_error text res ≡ err e
      → (t : Text) × (e ≡ token t)
  unfolding as_token_error
  as_token_error_err text (ok a) e h = cc
  as_token_error_err text (err x) e h = (text ++ err_text x, ground (arith, h))

  -- Every failure of the authentication is a token error, which the server answers with code 401.
  pub authenticate_failure :
      (h : Headers) (w : W) (e : Err)
      → (authenticate c s r o now h w).0 ≡ err e
      → (t : Text) × (e ≡ token t)
  authenticate_failure h w e q = elim (Bool-cases (text_eq (token_of h) [])) [
    | inl t ↦ (codes "非法访问", (unfold authenticate in ground (arith, t, q)))
    | inr f ↦ elim (Result-cases (get_id_by_token c (token_of h))) [
      | inr (x, z) ↦ (
        codes "无效的令牌:" ++ err_text x,
        (unfold authenticate as_token_error in ground (arith, f, z, q)),
      )
      | inl (id, z) ↦ elim (Result-cases (cache_verify c s r o now id (token_of h) w).0) [
        | inl (out, y) ↦ (unfold authenticate as_token_error in ground (arith, f, z, y, q))
        | inr (x, y) ↦ (
          codes "身份认证失败:" ++ err_text x,
          (unfold authenticate as_token_error in ground (arith, f, z, y, q)),
        )
      ]
    ]
  ]
