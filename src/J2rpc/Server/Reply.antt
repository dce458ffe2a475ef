-- ===== src/J2rpc/Server/Reply.antt =====
-- What a call that succeeds leaves in the message.
use gof.Base.{◌≡◌, refl, Option, none, some, List, map, arith, Text}
use gof.J2rpc.Error.{ok}
use gof.J2rpc.Http.{Writer}
use gof.J2rpc.Names.{join}
use gof.J2rpc.Message.{Message}
use gof.J2rpc.Server.{Server, Libraries, format_name}
use gof.J2rpc.Server.Serve.{dispatch, finish, store_result, handle_names}

abbrev pub or_else {ℓ} : {B : Type ℓ} → Option B → B → B
or_else none b = b
or_else (some a) b = a

module _ {A : Type 0} (L : Libraries A) (s : Server A) (ctx wr req : A) where
  -- the names that are looked up for a method that was split in two
  abbrev lookup_names : List Text → List Text
  lookup_names = map (format_name s)

  -- On success the result of the message is the callback's answer if there is one, and otherwise
  -- whatever the request carried as its own result; the error and the id are those that the request
  -- carried.
  pub handle_names_success :
      (msg : Message) (elem : List Text) (w w' : Writer) (answer : Option Text)
      → dispatch L s ctx wr req (lookup_names elem) (join (lookup_names elem)) msg.params w
        ≡ (ok answer, w')
      → (m : Message) × (handle_names L s ctx wr req msg elem w ≡ ((m, ok tt), w'))
        × (m.result ≡ or_else answer msg.result)
        × (m.error ≡ msg.error)
        × (m.id ≡ msg.id)
  unfolding handle_names finish store_result
  handle_names_success msg elem w w' none h =
      (record msg { method = join (lookup_names elem) }, ground (arith, h), refl, refl, refl)
  handle_names_success msg elem w w' (some t) h = (
    record msg { method = join (lookup_names elem); result = t },
    ground (arith, h),
    refl,
    refl,
    refl,
  )
