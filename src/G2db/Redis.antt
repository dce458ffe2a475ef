-- ===== src/G2db/Redis.antt =====
-- g2db/redis.go: the channel on which the processes tell each other which cached keys to drop. The
-- client and JSON are parameters.
pub mod Delivery
pub mod Clients
use gof.Base.{Option, none, some, List, [], ◌∷◌, ◌++◌, Text, codes}
use gof.Base.Dict.{Dict, get, put}
use gof.Fault.{Result, Action, lift, ◌>>=◌}
use gof.G2cache.Store.{Store}
use gof.G2db.Cache.{on_delete, on_delete_all}

-- `RedisSubHandlerFunc` on a world
abbrev pub Handler : Type 0 → Type 0
Handler W = Text → W → W

-- JSON of a list of keys, of null, and of `redisSubPayload`; a payload without data reads as none
pub record Json : Type 0 where
  pub dump_keys : List Text → Result Text
  pub parse_keys : Text → Option (List Text)
  pub dump_null : Result Text
  pub dump_payload : Text → Text → Result Text
  pub parse_payload : Text → Option (Text × Option Text)

-- what the loop of `subAction` receives: the closed channel, a closed or empty subscription, or a
-- message
pub data Event : Type 0 where
  closed : Event
  lost : Event
  message : Text → Event

-- `formatWithAppName`
unfoldable pub format_with_app_name : Text → Text → Text
format_with_app_name app s = app ++ (codes "_" ++ s)

unfoldable pub pub_del_mem_name : Text → Text
unfolding format_with_app_name
pub_del_mem_name app = format_with_app_name app (codes "DelMemCache")

unfoldable pub pub_del_all_name : Text → Text
unfolding format_with_app_name
pub_del_all_name app = format_with_app_name app (codes "DelMemAll")

unfoldable pub sub_channel : Text → Text
unfolding format_with_app_name
sub_channel app = format_with_app_name app (codes "Sub")

-- `Pub`: the message that goes out, through the client's publication on a channel
unfoldable pub publish_message : Json → Text → Text → Result Text
publish_message j name raw = j.dump_payload name raw

module _ {W : Type 0} (j : Json) (send : Text → Text → Action W (Unit {0})) (app : Text) where
  -- `Pub` of data that is marshalled already
  unfoldable pub pub_raw : Text → Result Text → Action W (Unit {0})
  unfolding publish_message sub_channel
  pub_raw name raw = do
    bd ← lift raw
    msg ← lift (publish_message j name bd)
    send (sub_channel app) msg

  -- `PubDelCache`
  unfoldable pub pub_del_cache : List Text → Action W (Unit {0})
  unfolding pub_raw pub_del_mem_name
  pub_del_cache keys = pub_raw (pub_del_mem_name app) (j.dump_keys keys)

  -- `PubDelMemAll`
  unfoldable pub pub_del_mem_all : Action W (Unit {0})
  unfolding pub_raw pub_del_all_name
  pub_del_mem_all = pub_raw (pub_del_all_name app) j.dump_null

module _ {W : Type 0} (j : Json) where
  -- the handlers that `Subscribe` sets
  unfoldable pub sub_handlers : Store W → Text → Dict (Handler W)
  unfolding pub_del_mem_name pub_del_all_name on_delete on_delete_all
  sub_handlers s app =
      put (pub_del_all_name app) (λ p w. on_delete_all s w)
        (put (pub_del_mem_name app) (λ p w. on_delete s (j.parse_keys p) w) [])

  -- one message: a payload without data is handed on as the empty text
  unfoldable pub sub_message : Dict (Handler W) → Text → W → W
  sub_message hs text w = elim (j.parse_payload text) [
    | none ↦ w
    | some (name, raw) ↦ elim (get name hs) [
      | none ↦ w
      | some handler ↦ handler (elim raw [ none ↦ [] | some d ↦ d ]) w
    ]
  ]

  -- `subAction` on the events in the order in which it takes them
  unfoldable pub sub_action : Dict (Handler W) → List Event → W → W
  unfolding sub_message
  sub_action hs [] w = w
  sub_action hs (closed ∷ es) w = w
  sub_action hs (lost ∷ es) w = w
  sub_action hs (message t ∷ es) w = sub_action hs es (sub_message hs t w)
