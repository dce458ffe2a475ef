-- ===== src/Base/Regex/Laws.antt =====
-- What two shapes of patterns match.
use Prim.Native.Nat.{ℕ, zero, suc, ◌≤◌}
use mathlib.Core.Path.{◌≡◌, refl, ap, ◌∙◌}
use mathlib.Core.Logic.{inl, inr}
use mathlib.Core.Bool.{Bool, true, false, ◌&&◌, ◌||◌}
use mathlib.Core.Option.{none, some}
use mathlib.Core.List.{List, [], ◌∷◌, ◌++◌, flat_map}
use native.Mathlib.Omega.{arith}
use gof.Base.Tests.{leb, Bool-cases}
use gof.Base.Lists.{any, length}
use gof.Base.Texts.{Text}
use gof.Base.Regex.{Item, is_nil, more, rests, run, matches}

unfoldable pub all : (ℕ → Bool) → Text → Bool
all p [] = true
all p (c ∷ s) = p c && all p s

any-append : {A : Type 0} (q : A → Bool) (l m : List A) → any q (l ++ m) ≡ (any q l || any q m)
any-append q [] m = refl
any-append q (a ∷ l) m = ground (arith, any-append q l m)

any-flat_map :
    {A B : Type 0} (q : B → Bool) (f : A → List B) (l : List A)
    → any q (flat_map f l) ≡ any (λ a. any q (f a)) l
unfolding flat_map
any-flat_map q f [] = refl
any-flat_map q f (a ∷ l) =
    any-append q (f a) (flat_map f l) ∙ ap (λ b. any q (f a) || b) (any-flat_map q f l)

any-ext : {A : Type 0} (p q : A → Bool) → ((a : A) → p a ≡ q a) → (l : List A) → any p l ≡ any q l
any-ext p q e [] = refl
any-ext p q e (a ∷ l) = ground (arith, e a, any-ext p q e l)

more-nil :
    (p : ℕ → Bool) (n : ℕ) (s : Text)
    → any is_nil (more p (some n) s) ≡ (leb (length s) n && all p s)
unfolding more all
more-nil p n [] = ground arith
more-nil p zero (c ∷ s) = ground arith
more-nil p (suc n) (c ∷ s) = ground (arith, more-nil p n s)

rests-nil :
    (p : ℕ → Bool) (lo n : ℕ) (s : Text)
    → lo ≤ n
    → any is_nil (rests p lo (some n) s) ≡ (leb lo (length s) && (leb (length s) n && all p s))
unfolding rests all
rests-nil p zero n s h = ground (arith, more-nil p n s)
rests-nil p (suc lo) n [] h = ground arith
rests-nil p (suc lo) zero (c ∷ s) h = absurd (omega (arith, h))
rests-nil p (suc lo) (suc n) (c ∷ s) h = ground (arith, rests-nil p lo n s (omega (arith, h)))

any-run :
    (i : Item) (is : List Item) (s : Text)
    → any is_nil (run (i ∷ is) s)
      ≡ any (λ t. any is_nil (run is t)) (rests i.holds i.at_least i.at_most s)
unfolding run
any-run i is s = any-flat_map is_nil (run is) (rests i.holds i.at_least i.at_most s)

run-last :
    (i : Item) (s : Text)
    → any is_nil (run (i ∷ []) s) ≡ any is_nil (rests i.holds i.at_least i.at_most s)
unfolding run
run-last i s =
    any-flat_map is_nil (λ x. x ∷ []) (rests i.holds i.at_least i.at_most s)
    ∙ any-ext (λ x. is_nil x || false) is_nil (λ x. ground arith)
        (rests i.holds i.at_least i.at_most s)

-- `^[p]{lo,n}$` matches the texts of `lo` to `n` characters that are all in the class.
pub matches-class :
    (p : ℕ → Bool) (lo n : ℕ) (s : Text)
    → lo ≤ n
    → matches (record { holds = p; at_least = lo; at_most = some n } ∷ []) s
      ≡ (leb lo (length s) && (leb (length s) n && all p s))
unfolding matches
matches-class p lo n s h =
    run-last (record { holds = p; at_least = lo; at_most = some n }) s ∙ rests-nil p lo n s h

-- all of a text can be read by a class without a limit
more-all : (p : ℕ → Bool) (s : Text) → all p s ≡ true → any is_nil (more p none s) ≡ true
unfolding more all
more-all p [] h = refl
more-all p (c ∷ s) h = ground (arith, h, more-all p s)

-- a character of a class first, and then whatever dots read
unfoldable pub starts : (ℕ → Bool) → Text → Bool
starts x [] = false
starts x (c ∷ s) = x c

abbrev pub dots : (ℕ → Bool) → Item
dots d = record { holds = d; at_least = 0; at_most = none }

abbrev pub some_of : (ℕ → Bool) → Item
some_of x = record { holds = x; at_least = 1; at_most = none }

run-dots : (d : ℕ → Bool) (s : Text) → all d s ≡ true → any is_nil (run (dots d ∷ []) s) ≡ true
run-dots d s h = run-last (dots d) s ∙ (unfold rests in more-all d s h)

starts-more :
    (d x : ℕ → Bool) (s : Text)
    → all d s ≡ true
    → any (λ t. any is_nil (run (dots d ∷ []) t)) (more x none s) ≡ true
unfolding more
starts-more d x [] h = ground (arith, run-dots d [] h)
starts-more d x (c ∷ s) h = ground (arith, run-dots d (c ∷ s) h)

rests-starts :
    (d x : ℕ → Bool) (s : Text)
    → all d s ≡ true
    → any (λ t. any is_nil (run (dots d ∷ []) t)) (rests x 1 none s) ≡ starts x s
unfolding rests starts all
rests-starts d x [] h = refl
rests-starts d x (c ∷ s) h = elim (Bool-cases (x c)) [
  | inl t ↦ rw (t) (starts-more d x s (ground (arith, h)))
  | inr f ↦ rw (f) refl
]

run-starts :
    (d x : ℕ → Bool) (s : Text)
    → all d s ≡ true
    → any is_nil (run (some_of x ∷ dots d ∷ []) s) ≡ starts x s
run-starts d x s h = any-run (some_of x) (dots d ∷ []) s ∙ rests-starts d x s h

suffixes :
    (d x : ℕ → Bool) (s : Text)
    → all d s ≡ true
    → any (λ t. any is_nil (run (some_of x ∷ dots d ∷ []) t)) (more d none s) ≡ any x s
unfolding more all starts
suffixes d x [] h = ground (arith, run-starts d x [] h)
suffixes d x (c ∷ s) h = ground (arith, h, run-starts d x (c ∷ s) h, suffixes d x s)

-- `^.*[x]+.*$` matches a text that the dots read if it has a character of the class.
pub matches-search :
    (d x : ℕ → Bool) (s : Text)
    → all d s ≡ true
    → matches (dots d ∷ some_of x ∷ dots d ∷ []) s ≡ any x s
unfolding matches rests
matches-search d x s h = any-run (dots d) (some_of x ∷ dots d ∷ []) s ∙ suffixes d x s h
