-- ===== src/Base/Sort.antt =====
-- Go's order of strings and `sort.Strings`: equal strings are the same, so every sorting algorithm
-- gives the same list.
use mathlib.Core.Path.{◌≡◌, refl, ap, ◌∙◌}
use mathlib.Core.Bool.{Bool, true, false}
use mathlib.Core.List.{List, [], ◌∷◌}
use mathlib.Core.List.{Permᴰ}
use native.Mathlib.Omega.{arith}
use gof.Base.Tests.{◌==◌, ltb, if◌then◌else◌}
use gof.Base.Texts.{Text}

-- `s <= t`, by bytes
unfoldable pub text_leb : Text → Text → Bool
text_leb [] t = true
text_leb (a ∷ s) [] = false
text_leb (a ∷ s) (b ∷ t) =
    let rest = text_leb s t in if ltb a b then true else if a == b then rest else false

unfoldable pub insert : Text → List Text → List Text
unfolding text_leb
insert s [] = s ∷ []
insert s (t ∷ ts) = let rest = insert s ts in if text_leb s t then s ∷ t ∷ ts else t ∷ rest

unfoldable pub sort : List Text → List Text
unfolding insert
sort [] = []
sort (s ∷ ts) = insert s (sort ts)

text_leb_total : (s t : Text) → text_leb s t ≡ false → text_leb t s ≡ true
unfolding text_leb
text_leb_total [] t h = ground (arith, h)
text_leb_total (a ∷ s) [] h = refl
text_leb_total (a ∷ s) (b ∷ t) h = ground (arith, h, text_leb_total s t)

text_leb_antisymm : (s t : Text) → text_leb s t ≡ true → text_leb t s ≡ true → s ≡ t
unfolding text_leb
text_leb_antisymm [] [] h k = refl
text_leb_antisymm [] (b ∷ t) h k = ground (arith, k)
text_leb_antisymm (a ∷ s) [] h k = ground (arith, h)
text_leb_antisymm (a ∷ s) (b ∷ t) h k = ground (arith, h, k, text_leb_antisymm s t)

text_leb_trans : (s t u : Text) → text_leb s t ≡ true → text_leb t u ≡ true → text_leb s u ≡ true
unfolding text_leb
text_leb_trans [] t u h k = refl
text_leb_trans (a ∷ s) [] u h k = ground (arith, h)
text_leb_trans (a ∷ s) (b ∷ t) [] h k = ground (arith, k)
text_leb_trans (a ∷ s) (b ∷ t) (c ∷ u) h k = ground (arith, h, k, text_leb_trans s t u)

insert_comm : (s t : Text) (l : List Text) → insert s (insert t l) ≡ insert t (insert s l)
unfolding insert
insert_comm s t [] = ground (arith, text_leb_total s t, text_leb_antisymm s t)
insert_comm s t (u ∷ l) = ground (
  arith,
  insert_comm s t l,
  text_leb_total s t,
  text_leb_antisymm s t,
  text_leb_trans s t u,
  text_leb_trans t s u,
  text_leb_total t u,
  text_leb_total s u,
)

-- The order of the list given to `sort.Strings` does not matter.
pub sort-Perm : {l m : List Text} → Permᴰ l m → sort l ≡ sort m
unfolding sort
sort-Perm Permᴰ.nil = refl
sort-Perm (Permᴰ.cons {a = a} {b = b} {l₂ = m} e d) =
    ap (insert a) (sort-Perm d) ∙ ap (λ x. insert x (sort m)) e
sort-Perm (Permᴰ.swap {a = a} {b = b} {a' = a'} {b' = b'} {l = l} e f) =
    insert_comm a b (sort l) ∙ cc
sort-Perm (Permᴰ.trans d e) = sort-Perm d ∙ sort-Perm e
