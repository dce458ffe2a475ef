-- ===== src/G2db/Redis/Clients.antt =====
-- g2db/redis.go: the clients by their databases, and the end of the subscription. Each method holds the
-- lock from start to end, so it is one step.
use gof.Base.{
  ℕ, zero, suc, ◌*◌, ◌%◌, ◌^◌, ◌≡◌, refl, Bool, true, false, Option, none, some, List, [], ◌∷◌,
  ◌++◌, arith, ◌==◌, if◌then◌else◌, Text, codes,
}
use gof.Base.Int.{ℤ}
use gof.Base.Replace.{replace_all}
use gof.Fault.{plain, err_text, Result, ok, err, Done}

-- what viper holds for this part
pub record Settings : Type 0 where
  pub host : Text
  pub redis : Text → Text

-- `redis.Options`; a duration is the 64 bits of Go's
pub record Options : Type 0 where
  pub addr : Text
  pub password : Text
  pub db : ℕ
  pub max_retries : ℤ
  pub min_idle_conns : ℤ
  pub max_conn_age : ℕ

-- `redisObj`: the clients, the flag, and whether the channel `closeSub` is closed
pub record RedisObj (C : Type 0) : Type 0 where
  pub clients : List (ℕ × C)
  pub is_close : Bool
  pub channel_closed : Bool

-- `newOption`, with `cast`
unfoldable pub new_option : (Text → ℤ) → (Text → ℕ) → Settings → ℕ → Options
unfolding replace_all
new_option to_int to_duration s db = record {
  addr = replace_all (codes "{host}") s.host (s.redis (codes "host"));
  password = s.redis (codes "pwd");
  db = db;
  max_retries = to_int (s.redis (codes "max_retries"));
  min_idle_conns = to_int (s.redis (codes "min_idle_connections"));
  max_conn_age = (to_duration (s.redis (codes "max_conn_age_seconds")) * 1000000000) % 2 ^ 64;
}

unfoldable pub find_client : {C : Type 0} → ℕ → List (ℕ × C) → Option C
find_client db [] = none
find_client db ((n, c) ∷ cs) = let rest = find_client db cs in if n == db then some c else rest

-- `client`, with what a new client answers to a ping; no answer is a panic, `none`
unfoldable pub client :
    {C : Type 0} → (ℕ → Result C) → List ℕ → RedisObj C → Option (C × RedisObj C)
unfolding find_client
client dial dbs r =
    let db : ℕ = elim dbs [ [] ↦ 0 | n ∷ ns ↦ n ] in
    elim (find_client db r.clients) [
      | some c ↦ some (c, r)
      | none ↦ elim (dial db) [
        | err e ↦ none
        | ok c ↦ some (c, record r { clients = (db, c) ∷ r.clients })
      ]
    ]

-- `closeRedisSub`; none is the panic of a second close of the channel
unfoldable pub close_redis_sub : {C : Type 0} → RedisObj C → Option (RedisObj C)
close_redis_sub r =
    if r.is_close
    then some r
    else if r.channel_closed
    then none
    else some (record r { is_close = true; channel_closed = true })

-- the channel and the flag that `Subscribe` starts from: the flag is not reset
unfoldable pub new_channel : {C : Type 0} → RedisObj C → RedisObj C
new_channel r = record r { channel_closed = false }

-- `subscribe`: whether the goroutine was started
unfoldable pub subscribe : Result (Unit {0}) → Done
unfolding err_text
subscribe (ok u) = ok tt
subscribe (err e) = err (plain (codes "订阅Redis失败: " ++ err_text e))

-- `AfterShutdown` several times
unfoldable pub close_times : {C : Type 0} → ℕ → RedisObj C → Option (RedisObj C)
unfolding close_redis_sub
close_times zero r = some r
close_times (suc n) r = elim (close_redis_sub r) [ none ↦ none | some r' ↦ close_times n r' ]

closed_once : {C : Type 0} (n : ℕ) (r : RedisObj C) → r.is_close ≡ true → close_times n r ≡ some r
unfolding close_times close_redis_sub
closed_once zero r h = refl
closed_once (suc n) r h = ground (arith, h, closed_once n r h)

-- However often an open subscription is closed, no call panics, and the channel is closed once.
pub close_times_once :
    {C : Type 0} (n : ℕ) (r : RedisObj C)
    → r.is_close ≡ false
    → r.channel_closed ≡ false
    → close_times (suc n) r ≡ some (record r { is_close = true; channel_closed = true })
unfolding close_times close_redis_sub
close_times_once n r h k =
    ground (arith, h, k, closed_once n (record r { is_close = true; channel_closed = true }) refl)
