-- ===== src/J2rpc/Names/Camel.antt =====
-- `CamelString` after `SnakeString`, on Go method names.
use gof.Base.{
  ℕ, ◌<◌, ◌≡◌, refl, sym, ap, ◌∙◌, ◌≢◌, Bool, true, false, not, ◌||◌, List, [], ◌∷◌, ◌++◌, map,
  append_assoc, append-nil, arith, All, Text,
}
use gof.J2rpc.Names.{
  is_upper, is_lower, to_lower, head_is_lower, snake_string, camel_loop, camel_string, underscore,
}
use gof.J2rpc.Names.Snake.{snake_tail, snake_string-tail}

-- A word of a Go name in ASCII: a capital and at least one byte that is neither capital nor underscore.
pub record Word : Type 0 where
  pub capital : ℕ
  pub second : ℕ
  pub rest : Text

abbrev pub IsInner : ℕ → Type 0
IsInner d = (is_upper d ≡ false) × (d ≢ underscore) × (d < 128)

pub record IsWord (w : Word) : Type 0 where
  pub capital : is_upper w.capital ≡ true
  pub second : IsInner w.second
  pub rest : All IsInner w.rest

abbrev pub spell : List Word → Text
spell [] = []
spell (w ∷ ws) = w.capital ∷ w.second ∷ (w.rest ++ spell ws)

-- the words in lower case, each behind an underscore
abbrev tails : List Word → Text
tails [] = []
tails (w ∷ ws) = underscore ∷ to_lower w.capital ∷ w.second ∷ (w.rest ++ tails ws)

snake_inner :
    (t s : Text)
    → All IsInner t
    → map to_lower (snake_tail (t ++ s) true) ≡ t ++ map to_lower (snake_tail s true)
unfolding snake_tail to_lower
snake_inner [] s _ = refl
snake_inner (d ∷ t) s (h, ht) = ground (arith, snake_inner t s ht)

snake_spell :
    (ws : List Word) → All IsWord ws → map to_lower (snake_tail (spell ws) true) ≡ tails ws
unfolding snake_tail to_lower
snake_spell [] _ = refl
snake_spell (w ∷ ws) (h, hs) = ground (
  arith,
  h.capital,
  h.second.0,
  h.second.1,
  snake_inner w.rest (spell ws) h.rest,
  snake_spell ws hs,
)

camel_inner :
    (t s out : Text)
    → All IsInner t
    → camel_loop (t ++ s) false true out ≡ camel_loop s false true (out ++ t)
unfolding camel_loop
camel_inner [] s out _ = ap (camel_loop s false true) (sym (append-nil out))
camel_inner (d ∷ t) s out (h, ht) =
    ground (arith, camel_inner t s (out ++ d ∷ []) ht, append_assoc out (d ∷ []) t)

-- a lower letter that starts a word is lifted to its capital
camel_capital :
    (c : ℕ) (s out : Text) (j k : Bool)
    → is_upper c ≡ true
    → (j || not k) ≡ true
    → camel_loop (to_lower c ∷ s) j k out ≡ camel_loop s false true (out ++ c ∷ [])
unfolding camel_loop to_lower is_upper is_lower
camel_capital c s out j k h hj = ground arith

camel_underscore :
    (c : ℕ) (s out : Text)
    → is_upper c ≡ true
    → camel_loop (underscore ∷ to_lower c ∷ s) false true out
      ≡ camel_loop (to_lower c ∷ s) true true out
unfolding camel_loop to_lower is_upper is_lower head_is_lower
camel_underscore c s out h = ground arith

camel_body :
    (w : Word) (s out : Text) (j k : Bool)
    → IsWord w
    → (j || not k) ≡ true
    → camel_loop (to_lower w.capital ∷ w.second ∷ (w.rest ++ s)) j k out
      ≡ camel_loop s false true (out ++ w.capital ∷ w.second ∷ w.rest)
camel_body w s out j k h hj =
    camel_capital w.capital _ out j k h.capital hj
    ∙ (camel_inner (w.second ∷ w.rest) s (out ++ w.capital ∷ []) (h.second, h.rest)
        ∙ ap (camel_loop s false true) (append_assoc out (w.capital ∷ []) (w.second ∷ w.rest)))

camel_tails :
    (ws : List Word) (out : Text)
    → All IsWord ws
    → camel_loop (tails ws) false true out ≡ out ++ spell ws
camel_tails [] out _ = unfold camel_loop in sym (append-nil out)
camel_tails (w ∷ ws) out (h, hs) =
    camel_underscore w.capital _ out h.capital
    ∙ (camel_body w (tails ws) out true true h refl
        ∙ (camel_tails ws _ hs ∙ append_assoc out (w.capital ∷ w.second ∷ w.rest) (spell ws)))

snake_first :
    (w : Word) (ws : List Word)
    → IsWord w
    → All IsWord ws
    → snake_string (spell (w ∷ ws)) ≡ to_lower w.capital ∷ w.second ∷ (w.rest ++ tails ws)
snake_first w ws h hs =
    snake_string-tail _
    ∙ (unfold snake_tail to_lower in
        ground (
          arith,
          h.capital,
          h.second.0,
          h.second.1,
          snake_inner w.rest (spell ws) h.rest,
          snake_spell ws hs,
        ))

-- On a Go name of ASCII letters made of words, each a capital followed by one or more bytes that are
-- neither capitals nor underscores, `CamelString` gives back what `SnakeString` took.
pub camel_string-snake_string :
    (ws : List Word) → All IsWord ws → camel_string (snake_string (spell ws)) ≡ spell ws
unfolding camel_string
camel_string-snake_string [] _ = unfold snake_string camel_loop in refl
camel_string-snake_string (w ∷ ws) (h, hs) =
    ap (λ s. camel_loop s false false []) (snake_first w ws h hs)
    ∙ (camel_body w (tails ws) [] false false h refl ∙ camel_tails ws _ hs)
