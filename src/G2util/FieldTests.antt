-- ===== src/G2util/FieldTests.antt =====
-- An object whose fields are asked for by a tag, and a client with a timeout and a proxy.
use gof.Base.{◌≡◌, refl, true, false, Option, none, some, [], ◌∷◌, ◌++◌, Text, codes, text_eq}
use gof.Base.Dict.{get}
use gof.Base.Int.{ℤ, ◌≤ℤ◌}
use gof.Fault.{ok}
use gof.G2util.Fields.{Field, GoValue, ptr, struct, pointer, other, object_tag_instances}
use gof.G2util.Resty.{
  Proxies, direct, through, create_dialer, seconds, construct_client, set_dial_timeout, set_proxy,
}
use gof.G2util.Resty.Settings.{last_setting_kept}

abbrev marked : Text → Option Text → Field Text
marked t p = record { tags = (codes "migrate", []) ∷ []; exported = true; content = pointer t p }

abbrev untagged : Field Text
untagged = record { tags = []; exported = true; content = pointer (codes "U") none }

abbrev hidden : Field Text
hidden = record (marked (codes "H") none) { exported = false }

abbrev object : GoValue Text
object = ptr (
    struct (
      marked (codes "User") none
      ∷ untagged
      ∷ hidden
      ∷ marked (codes "Role") (some (codes "roles"))
      ∷ record { tags = (codes "migrate", []) ∷ []; exported = true; content = other }
      ∷ []))

abbrev filled : GoValue Text
filled = ptr (
    struct (
      marked (codes "User") (some (codes "new User"))
      ∷ untagged
      ∷ hidden
      ∷ marked (codes "Role") (some (codes "roles"))
      ∷ record { tags = (codes "migrate", []) ∷ []; exported = true; content = other }
      ∷ []))

abbrev new_text : Text → Text
new_text t = codes "new " ++ t

instances :
    object_tag_instances new_text (codes "migrate") object
    ≡ some (codes "new User" ∷ codes "roles" ∷ [], filled)
unfolding object_tag_instances get text_eq
instances = refl

abbrev proxies : Proxies Text Text Text
proxies = record {
  parse = ok;
  with_user = λ i u. i ++ (b'@' ∷ u);
  from_url = λ u d. ok u;
  is_context_dialer = λ p. true;
}

last_setting_kept_example :
    (set_dial_timeout 4
        (seconds 0)
        (set_proxy 4 proxies (codes "px") (codes "me") (construct_client {P = Text} 4))
      ≡ set_dial_timeout 4 (seconds 0) (construct_client 4))
    × (set_proxy 4 proxies
          (codes "px")
          (codes "me")
          (set_dial_timeout 4 (seconds 0) (construct_client 4))
        ≡ set_proxy 4 proxies (codes "px") (codes "me") (construct_client 4))
    × ((t : ℤ) × (seconds 1 ≤ℤ seconds 0 → t ≡ seconds 0)
        × (seconds 0 ≤ℤ seconds 1 → t ≡ seconds 1)
        × ((set_dial_timeout {P = Text} 4 (seconds 0) (construct_client 4)).transport.dial_context
            ≡ direct (record create_dialer { timeout = t })))
    × ((set_proxy 4 proxies (codes "px") (codes "me") (construct_client 4)).transport.dial_context
        ≡ through (codes "me@px"))
last_setting_kept_example =
    last_setting_kept 4 proxies (codes "px") (codes "me") (seconds 0) (codes "px") (codes "me@px")
      (construct_client 4) refl refl refl
