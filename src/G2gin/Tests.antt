-- ===== src/G2gin/Tests.antt =====
-- Runs of handlers on concrete functions.
use gof.Base.{ℕ, ◌≡◌, refl, List, [], ◌∷◌, length, Text, codes}
use gof.J2rpc.Error.{Outcome, ok, panic}
use gof.J2rpc.Tests.Samples.{text_type}
use gof.J2rpc.Reflect.{GoType}
use gof.G2gin.{Parameter, context, pointer, scalar, bind_args}
use gof.G2gin.Arguments.{bound}

abbrev bind_text : ℕ → GoType → Outcome Text
bind_text n t = ok (codes "body")

abbrev second : List Text → Outcome (List Text)
second (a ∷ b ∷ r) = ok (b ∷ [])
second _ = panic (codes "arity")

abbrev good : List Parameter
good = context ∷ pointer text_type ∷ []

abbrev bad : List Parameter
bad = context ∷ scalar text_type ∷ []

good_binds : bind_args bind_text (codes "c") 0 good ≡ ok (codes "c" ∷ codes "body" ∷ [])
unfolding bind_args
good_binds = refl

good_bound : bound good ≡ length good
unfolding bound
good_bound = refl
