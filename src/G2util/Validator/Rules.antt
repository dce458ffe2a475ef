-- ===== src/G2util/Validator/Rules.antt =====
-- The rules without patterns.
use gof.Base.{
  ℕ, ◌≡◌, refl, ◌∙◌, inl, inr, Bool, true, false, not, ◌&&◌, [], ◌∷◌, arith, leb, if◌then◌else◌,
  Bool-cases, length, any, Text,
}
use gof.Base.Regex.{matches}
use gof.Base.Regex.Laws.{all, matches-class, matches-search}
use gof.J2rpc.Names.{is_upper, is_lower}
use gof.G2util.Validator.{
  valid_password, valid_username, somewhere, is_dot, is_blank, not_blank, is_digit, is_word, times,
}

not_blank_dots : (s : Text) → all not_blank s ≡ true → all is_dot s ≡ true
unfolding all is_blank is_dot
not_blank_dots [] h = refl
not_blank_dots (c ∷ s) h = ground (arith, h, not_blank_dots s)

matches-somewhere :
    (p : ℕ → Bool) (s : Text) → all not_blank s ≡ true → matches (somewhere p) s ≡ any p s
unfolding somewhere
matches-somewhere p s h = matches-search is_dot p s (not_blank_dots s h)

all_four :
    (w u l d : Bool)
    → (if not w
        then false
        else if not u
        then false
        else if not l
        then false
        else if not d
        then false
        else true)
      ≡ (w && (u && (l && d)))
all_four true true true true = refl
all_four true true true false = refl
all_four true true false d = refl
all_four true false l d = refl
all_four false u l d = refl

-- A password is accepted if and only if it has 8 to 24 characters, none of them blank, and an upper
-- case letter, a lower case letter and a digit among them.
pub valid_password-rules :
    (s : Text)
    → valid_password s ≡ (
        (leb 8 (length s) && (leb (length s) 24 && all not_blank s))
        && (any is_upper s && (any is_lower s && any is_digit s)))
unfolding valid_password
valid_password-rules s =
    let w = matches (times not_blank 8 24 ∷ []) s in
    let u = matches (somewhere is_upper) s in
    let l = matches (somewhere is_lower) s in
    let d = matches (somewhere is_digit) s in
    let whole = matches-class not_blank 8 24 s (omega arith) in
    all_four w u l d ∙ elim (Bool-cases (all not_blank s)) [
      | inr f ↦ (let fails : w ≡ false = ground (arith, whole, f) in rw (fails, f) (ground arith))
      | inl t ↦
          rw
            (
              whole,
              matches-somewhere is_upper s t,
              matches-somewhere is_lower s t,
              matches-somewhere is_digit s t,
            )
            refl
    ]

-- A user name is accepted if and only if it has 5 to 15 letters, digits and underscores.
pub valid_username-rules :
    (s : Text) → valid_username s ≡ (leb 5 (length s) && (leb (length s) 15 && all is_word s))
unfolding valid_username
valid_username-rules s = matches-class is_word 5 15 s (omega arith)
