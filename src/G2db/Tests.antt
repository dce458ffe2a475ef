-- ===== src/G2db/Tests.antt =====
-- Runs of the cache and of the tokens on a world of tables.
use gof.Base.{
  ℕ, zero, suc, ◌-◌, ◌≡◌, refl, ◌≢◌, false, none, some, List, [], ◌∷◌, ◌++◌, arith, Text, codes,
  text_eq, text_eq_refl,
}
use gof.Base.Int.{ℤ, pos, negsuc}
use gof.Base.Decimal.{int_text}
use gof.Base.Replace.{replace_all}
use gof.Base.Dict.{Dict, get, put, remove, get-put, get-put_self, get-remove}
use gof.Fault.{err_text, not_found, redis_nil, plain, token, Result, ok, err, Action}
use gof.G2cache.Store.{Store, IsStore}
use gof.G2db.Cache.{cache_null, get_or_store}
use gof.G2db.Token.{
  TokenData, TokenOption, Redis, Codec, Headers, mem_cache_key, token_of, get_id_by_token,
  after_login, authenticate, cache_verify, generate_td, remove_token_data,
}
use gof.G2db.Token.Verify.{Evidence, authenticate_sound}
use gof.G2db.Token.Expiry.{IsRedis}
use gof.G2db.Token.Login.{IsCodec, authenticate-after_login, cache_verify_logged_out}

-- the memory cache and the hashes of Redis
record World : Type 0 where
  mem : Dict Text
  hash : Dict Text

abbrev memory : Store World
memory = record {
  get = λ k w. elim (get k w.mem) [ none ↦ err not_found | some d ↦ ok d ];
  set = λ k d w. (ok tt, record w { mem = put k d w.mem });
  delete = λ k w. (ok tt, record w { mem = remove k w.mem });
  reset = λ w. (ok tt, record w { mem = [] });
}

memory-IsStore : IsStore memory
unfolding get
memory-IsStore = record {
  set_ok = λ k v w. refl;
  get-set = λ k j v w. ground (arith, get-put k j v w.mem);
  delete_ok = λ k w. refl;
  get-delete = λ k j w. ground (arith, get-remove k j w.mem);
  reset_ok = λ w. refl;
  get-reset = λ j w. refl;
}

abbrev drop_keys : List Text → Dict Text → Dict Text
drop_keys [] m = m
drop_keys (k ∷ ks) m = drop_keys ks (remove k m)

abbrev hashes : Redis World
hashes = record {
  hget = λ k f w. elim (get (k ++ f) w.hash) [ none ↦ err redis_nil | some d ↦ ok d ];
  hset = λ k f v w. (ok tt, record w { hash = put (k ++ f) v w.hash });
  hdel = λ k f w. (ok tt, record w { hash = remove (k ++ f) w.hash });
  publish = λ ks w. (ok tt, record w { mem = drop_keys ks w.mem });
}

hashes-IsRedis : IsRedis hashes
hashes-IsRedis = record {
  hset_ok = λ k f v w. refl;
  hget-hset = λ k f v w. ground (arith, get-put_self (k ++ f) v w.hash);
  hdel_ok = λ k f w. refl;
  hget-hdel = λ k f w. ground (arith, get-remove (k ++ f) (k ++ f) w.hash, text_eq_refl (k ++ f));
  publish_ok = λ ks w. refl;
  hget-publish = λ k f ks w. refl;
}

abbrev dump_td : TokenData → Text
dump_td td = elim td.id [
  | pos n ↦ 0 ∷ n ∷ td.expire ∷ td.token
  | negsuc n ↦ 1 ∷ n ∷ td.expire ∷ td.token
]

abbrev parse_td : Text → Result TokenData
parse_td (zero ∷ n ∷ e ∷ t) = ok (record { id = pos n; token = t; expire = e })
parse_td (suc zero ∷ n ∷ e ∷ t) = ok (record { id = negsuc n; token = t; expire = e })
parse_td _ = err (plain (codes "bad token data"))

abbrev plain_codec : Codec
plain_codec = record {
  encrypt = λ t. t;
  decrypt = λ t. ok t;
  to_upper = λ t. t;
  to_lower = λ t. t;
  dump = dump_td;
  parse = parse_td;
  id_of_text = λ t. elim t [ [] ↦ pos 0 | c ∷ s ↦ pos (c - 48) ];
}

parse-dump_td :
    (i : ℤ) (t : Text) (e : ℕ)
    → parse_td (dump_td (record { id = i; token = t; expire = e }))
      ≡ ok (record { id = i; token = t; expire = e })
parse-dump_td (pos n) t e = refl
parse-dump_td (negsuc n) t e = refl

dump_td-ne :
    (i : ℤ) (t : Text) (e : ℕ) → dump_td (record { id = i; token = t; expire = e }) ≢ cache_null
dump_td-ne (pos n) t e h = cc
dump_td-ne (negsuc n) t e h = cc

plain_codec-IsCodec : IsCodec plain_codec
plain_codec-IsCodec = record {
  decrypt-encrypt = λ t. refl;
  parse-dump = λ td. parse-dump_td td.id td.token td.expire;
  dump-ne-null = λ td. dump_td-ne td.id td.token td.expire;
}

abbrev option : TokenOption
option = record {
  key = codes "app/token";
  timeout = 100;
  max_refresh = 30;
  multi_login = λ i. false;
}

abbrev empty : World
empty = record { mem = []; hash = [] }

abbrev headers : Headers
headers = record { token = codes "Bearer 7"; authorization = []; query = [] }

abbrev logged_in : World
logged_in = (after_login plain_codec hashes option 1000 (pos 7) empty).1

login_misses : memory.get (mem_cache_key option (pos 7)) logged_in ≡ err not_found
unfolding after_login mem_cache_key get remove
login_misses = refl

token_sent : token_of headers ≡ (generate_td plain_codec option 1000 (pos 7)).token
unfolding token_of generate_td int_text replace_all text_eq
token_sent = refl

token_full : token_of headers ≢ []
unfolding token_of replace_all text_eq
token_full h = cc

id_reads : plain_codec.id_of_text (int_text (pos 7)) ≡ pos 7
unfolding int_text
id_reads = refl

authenticate-after_login_example :
    ((after_login plain_codec hashes option 1000 (pos 7) empty).0
      ≡ ok (generate_td plain_codec option 1000 (pos 7)))
    × ((authenticate plain_codec memory hashes option 1090 headers logged_in).0
        ≡ ok (token_of headers, pos 7))
authenticate-after_login_example =
    authenticate-after_login plain_codec memory hashes option plain_codec-IsCodec memory-IsStore
      hashes-IsRedis (pos 7) empty 1000 1090 headers refl id_reads login_misses token_sent
      token_full (omega arith)

logout_misses :
    memory.get (mem_cache_key option (pos 7)) (remove_token_data hashes option (pos 7) logged_in).1
    ≡ err not_found
unfolding after_login remove_token_data mem_cache_key get remove
logout_misses = refl

cache_verify_logged_out_example :
    (cache_verify plain_codec memory hashes option 1001
      (pos 7)
      (codes "7")
      (remove_token_data hashes option (pos 7) logged_in).1).0
    ≡ err (plain (codes "未知的令牌"))
cache_verify_logged_out_example =
    cache_verify_logged_out plain_codec memory hashes option plain_codec-IsCodec memory-IsStore
      hashes-IsRedis (pos 7) logged_in 1001 (codes "7") logout_misses

authenticated : authenticate plain_codec memory hashes option 1010 headers logged_in ≡ (
  ok (codes "7", pos 7),
  (authenticate plain_codec memory hashes option 1010 headers logged_in).1,
)
unfolding authenticate after_login token_of replace_all int_text text_eq remove get put cache_verify
    get_or_store mem_cache_key get_id_by_token
authenticated = refl

authenticate_sound_example :
    Evidence plain_codec memory hashes option 1010 headers logged_in (codes "7") (pos 7)
authenticate_sound_example =
    authenticate_sound plain_codec memory hashes option 1010 headers logged_in authenticated

refused :
    (authenticate plain_codec memory hashes option 2000 headers logged_in).0
    ≡ err (token (codes "身份认证失败:过期的令牌"))
unfolding authenticate after_login token_of replace_all int_text text_eq remove get put cache_verify
    get_or_store mem_cache_key get_id_by_token err_text
refused = refl

abbrev load : Text → Action World Text
load d w = (ok d, w)

first_read : (get_or_store memory (codes "k") (load (codes "v")) empty).0 ≡ ok (codes "v")
unfolding get_or_store get
first_read = refl

abbrev filled : World
filled = record { mem = (codes "a", codes "1") ∷ (codes "b", codes "2") ∷ []; hash = [] }
