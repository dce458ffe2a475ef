-- ===== src/J2rpc/Names/Paths.antt =====
-- `namespace.method` texts: split, join and `snakePath`.
use mathlib.Core.List.{flat_map}
use gof.Base.{◌≡◌, ◌≢◌, [], ◌∷◌, ◌++◌, append_assoc, append-nil, arith, All, Text}
use gof.J2rpc.Names.{split_two, split_all, join, snake_path, snake_string, dot}

abbrev pub LacksDot : Text → Type 0
LacksDot = All (λ c. c ≢ dot)

pub split_two-dot :
    (cur s t : Text) → LacksDot s → split_two cur (s ++ dot ∷ t) ≡ (cur ++ s) ∷ t ∷ []
unfolding split_two
split_two-dot cur [] t _ = ground (arith, append-nil cur)
split_two-dot cur (c ∷ s) t (h, hs) =
    ground (arith, split_two-dot (cur ++ c ∷ []) s t hs, append_assoc cur (c ∷ []) s)

pub split_two_lacks : (cur s : Text) → LacksDot s → split_two cur s ≡ (cur ++ s) ∷ []
unfolding split_two
split_two_lacks cur [] _ = ground (arith, append-nil cur)
split_two_lacks cur (c ∷ s) (h, hs) =
    ground (arith, split_two_lacks (cur ++ c ∷ []) s hs, append_assoc cur (c ∷ []) s)

pub split_all-dot :
    (cur s t : Text) → LacksDot s → split_all cur (s ++ dot ∷ t) ≡ (cur ++ s) ∷ split_all [] t
unfolding split_all
split_all-dot cur [] t _ = ground (arith, append-nil cur)
split_all-dot cur (c ∷ s) t (h, hs) =
    ground (arith, split_all-dot (cur ++ c ∷ []) s t hs, append_assoc cur (c ∷ []) s)

pub split_all_lacks : (cur s : Text) → LacksDot s → split_all cur s ≡ (cur ++ s) ∷ []
unfolding split_all
split_all_lacks cur [] _ = ground (arith, append-nil cur)
split_all_lacks cur (c ∷ s) (h, hs) =
    ground (arith, split_all_lacks (cur ++ c ∷ []) s hs, append_assoc cur (c ∷ []) s)

-- Whatever the text, joining the parts of the two-way split gives the text back.
pub join-split_two : (cur s : Text) → join (split_two cur s) ≡ cur ++ s
unfolding split_two join flat_map
join-split_two cur [] = ground arith
join-split_two cur (c ∷ s) =
    ground (arith, join-split_two (cur ++ c ∷ []) s, append_assoc cur (c ∷ []) s, append-nil s)

-- A path `ns.m` is converted part by part.
pub snake_path-dot :
    (ns m : Text)
    → LacksDot ns
    → LacksDot m
    → snake_path (ns ++ dot ∷ m) ≡ snake_string ns ++ dot ∷ snake_string m
unfolding snake_path join flat_map
snake_path-dot ns m h k =
    rw (split_all-dot [] ns m h, split_all_lacks [] m k)
      (ground (arith, append-nil (snake_string m)))
