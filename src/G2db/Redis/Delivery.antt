-- ===== src/G2db/Redis/Delivery.antt =====
-- From the publication of keys to their deletion.
use gof.Base.{
  ◌≡◌, refl, ap, ◌∙◌, false, some, List, [], ◌∷◌, ◌++◌, map, arith, if◌then◌else◌, any, Text,
  text_eq,
}
use gof.Base.Dict.{Dict, get, get-put, get-put_self}
use gof.Fault.{not_found, ok, err}
use gof.G2cache.Store.{Store, IsStore}
use gof.G2db.Cache.{on_delete}
use gof.G2db.Cache.Invalidate.{get-on_delete}
use gof.G2db.Redis.{
  Json, Event, closed, message, Handler, pub_del_mem_name, pub_del_all_name, format_with_app_name,
  publish_message, sub_handlers, sub_message, sub_action,
}

-- JSON that reads back what it wrote
pub record IsJson (j : Json) : Type 0 where
  pub parse-keys :
      (keys : List Text) (t : Text) → j.dump_keys keys ≡ ok t → j.parse_keys t ≡ some keys
  pub parse-payload :
      (name raw t : Text)
      → j.dump_payload name raw ≡ ok t
      → j.parse_payload t ≡ some (name, some raw)

-- Only the messages before the end of the subscription are handled, in their order.
pub sub_action-append :
    {W : Type 0} (j : Json) (hs : Dict (Handler W)) (ts : List Text) (es : List Event) (w : W)
    → sub_action j hs (map message ts ++ closed ∷ es) w ≡ sub_action j hs (map message ts) w
unfolding sub_action
sub_action-append j hs [] es w = refl
sub_action-append j hs (t ∷ ts) es w = sub_action-append j hs ts es (sub_message j hs t w)

names_apart : (app : Text) → text_eq (pub_del_all_name app) (pub_del_mem_name app) ≡ false
unfolding pub_del_all_name pub_del_mem_name format_with_app_name text_eq
names_apart [] = refl
names_apart (c ∷ app) = ground (arith, names_apart app)

module _ {W : Type 0} (j : Json) (json : IsJson j) (s : Store W) (laws : IsStore s)
    (app : Text) where
  sub_handler_found :
      get (pub_del_mem_name app) (sub_handlers j s app)
      ≡ some (λ p w. on_delete s (j.parse_keys p) w)
  unfolding sub_handlers
  sub_handler_found =
      rw (get-put, names_apart app)
        (get-put_self (pub_del_mem_name app) (λ p w. on_delete s (j.parse_keys p) w) [])

  -- With JSON that reads back and a cache that keeps its promises: when a process has published
  -- keys and another handles the message, exactly those keys are missing from its cache afterwards,
  -- and every other key reads as before.
  pub sub_message-publish :
      (keys : List Text) (raw msg k : Text) (w : W)
      → j.dump_keys keys ≡ ok raw
      → publish_message j (pub_del_mem_name app) raw ≡ ok msg
      → s.get k (sub_message j (sub_handlers j s app) msg w)
        ≡ (if any (λ i. text_eq i k) keys then err not_found else s.get k w)
  unfolding sub_message on_delete
  sub_message-publish keys raw msg k w hk hm =
      let parsed : j.parse_payload msg ≡ some (pub_del_mem_name app, some raw) =
        json.parse-payload (pub_del_mem_name app) raw msg (unfold publish_message in hm) in
      let run : sub_message j (sub_handlers j s app) msg w ≡ on_delete s (some keys) w =
        (rw (sub_message, parsed, sub_handler_found)
          (ap (λ p. on_delete s p w) (json.parse-keys keys raw hk))) in
      ap (s.get k) run ∙ get-on_delete s laws (some keys) k w
