-- ===== src/G2emq.antt =====
-- g2emq/emq.go: publication and subscription at an MQTT broker, and the queue of publications behind
-- which one goroutine works. The client, JSON and viper are parameters.
pub mod Queue
pub mod Tests
use gof.Base.{ℕ, Bool, false, Option, none, some, [], ◌++◌, Text, codes}
use gof.Base.Replace.{replace_all}
use gof.Fault.{Err, plain, ok, err, Action, Done}

-- What `WaitTimeout` and `Error` of a token say: nothing came in time, or the call is over.
pub data Token : Type 0 where
  late : Token
  over : Option Err → Token

-- the client, with handlers of messages `H`
pub record Client (W H : Type 0) : Type 0 where
  pub publish : Text → ℕ → Bool → Text → W → Token × W
  pub subscribe : Text → ℕ → H → W → Token × W
  pub connect : W → Token × W

-- a payload: bytes, a text, or another value of type `V`
pub data Payload (V : Type 0) : Type 0 where
  bytes : Text → Payload V
  string : Text → Payload V
  value : V → Payload V

-- `Emq` without its libraries and its queue
pub record Emq : Type 0 where
  pub qos : ℕ
  pub retained : Bool
  pub topic_prefix : Text

-- what viper holds for this part
pub record Viper : Type 0 where
  pub name : Text
  pub broker : Text
  pub host : Text
  pub super_username : Text
  pub super_password : Text

-- the options that are set from the configuration
pub record ClientOptions : Type 0 where
  pub broker : Text
  pub client_id : Text
  pub username : Text
  pub password : Text

abbrev pub err_token_timeout : Err
err_token_timeout = plain (codes "等待emq服务器Token超时")

-- `Constructor`
abbrev pub constructed : Emq
constructed = record { qos = 1; retained = false; topic_prefix = [] }

-- `EmqSuperAuth`, with the hexadecimal digest
unfoldable pub emq_super_auth : (Text → Text) → Viper → Text × Text
emq_super_auth sha256_hex v = (v.super_username, sha256_hex v.super_password)

-- `prepareOption`, with a new short id
unfoldable pub prepare_option : (Text → Text) → Viper → Text → Emq → Emq × ClientOptions
unfolding emq_super_auth replace_all
prepare_option sha256_hex v id e = (
  record e { topic_prefix = v.name ++ codes "/" },
  record {
    broker = replace_all (codes "{host}") v.host v.broker;
    client_id = v.name ++ (codes ":SYS_" ++ id);
    username = (emq_super_auth sha256_hex v).0;
    password = (emq_super_auth sha256_hex v).1;
  },
)

-- the end of `Publish`, `Subscribe` and `dial`
unfoldable pub wait : Token → Done
wait late = err err_token_timeout
wait (over none) = ok tt
wait (over (some e)) = err e

-- the type switch of `Publish`
unfoldable pub payload_bytes : {V : Type 0} → (V → Text) → Payload V → Text
payload_bytes json_dump (bytes b) = b
payload_bytes json_dump (string s) = s
payload_bytes json_dump (value v) = json_dump v

module _ {W H : Type 0} (c : Client W H) where
  -- `Publish`
  unfoldable pub publish : {V : Type 0} → (V → Text) → Emq → Text → Payload V → Action W (Unit {0})
  unfolding wait payload_bytes
  publish json_dump e topic payload w =
      let (t, w') =
        c.publish (e.topic_prefix ++ topic) e.qos e.retained (payload_bytes json_dump payload) w in
      (wait t, w')

  -- `Subscribe`
  unfoldable pub subscribe : Emq → Text → H → Action W (Unit {0})
  unfolding wait
  subscribe e topic callback w =
      let (t, w') = c.subscribe (e.topic_prefix ++ topic) e.qos callback w in (wait t, w')

  -- `dial` on a client with its options
  unfoldable pub dial : Action W (Unit {0})
  unfolding wait
  dial w = let (t, w') = c.connect w in (wait t, w')

  -- `Dial`: its error ends the process, none; `Start` is the goroutine of the queue
  unfoldable pub must_dial : (W → W) → W → Option W
  unfolding dial
  must_dial start w = let (r, w') = dial w in elim r [ err e ↦ none | ok _ ↦ some (start w') ]
