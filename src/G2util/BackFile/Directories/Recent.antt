-- ===== src/G2util/BackFile/Directories/Recent.antt =====
-- What the deletion of old directories spares, and what it takes.
use gof.Base.{
  ℕ, zero, suc, ◌+◌, ◌≤◌, ◌<◌, ◌≡◌, refl, sym, ap, ◌∙◌, ◌≢◌, inl, inr, Bool, true, false, some,
  List, [], ◌∷◌, ◌++◌, arith, ◌==◌, Bool-cases, Option-cases, List-cases, any, All, Text, text_eq,
  text_eq_iff, text_eq_refl,
}
use gof.Base.Decimal.Digits.{all_digits}
use gof.Base.Path.{dir, stem, join_path}
use mathlib.Core.Option.{some-injective}
use mathlib.Core.List.{Mem, mem-cons_self, mem-cons_of_mem}
use gof.Base.Replace.{strip}
use gof.G2util.BackFile.Directories.{
  Entry, file_dir_with_day_suffix, latest_n_day_str, is_day_dir, un_del_dirs, is_deleted, del_list,
  auto_del_dir,
}

days_cover :
    (path : Text) (day_str : ℕ → Text) (a b n : ℕ)
    → b ≤ a
    → a < b + n
    → any
        (λ p. text_eq p (file_dir_with_day_suffix path (day_str a)))
        (un_del_dirs path (latest_n_day_str day_str b n))
      ≡ true
unfolding un_del_dirs latest_n_day_str file_dir_with_day_suffix
days_cover path day_str a b zero h k = absurd (omega (arith, h, k))
days_cover path day_str a b (suc n) h k = elim (Bool-cases (a == b)) [
  | inl e ↦
      (let same : a ≡ b = ground (arith, e) in
        rw (same, text_eq_refl (join_path (dir path) (stem path ++ day_str b))) refl)
  | inr e ↦
      (let rest = days_cover path day_str a (suc b) n (ground (arith, h, e)) (omega (arith, k)) in
        ground (arith, rest))
]

kept_not_deleted :
    (path : Text) (days : List Text) (e : Entry)
    → any (λ n1. text_eq n1 e.path) (un_del_dirs path days) ≡ true
    → is_deleted path days e ≡ false
unfolding is_deleted
kept_not_deleted path days e h = ground (arith, h)

spared :
    (path p : Text) (days : List Text) (es : List Entry)
    → any (λ n1. text_eq n1 p) (un_del_dirs path days) ≡ true
    → any (λ q. text_eq q p) (del_list path days es) ≡ false
unfolding del_list
spared path p days [] h = refl
spared path p days (e ∷ es) h = elim (Bool-cases (text_eq e.path p)) [
  | inr f ↦ ground (arith, f, spared path p days es h)
  | inl t ↦
      (let same : p ≡ e.path = sym ((text_eq_iff e.path p).0 t) in
        let kept =
          kept_not_deleted path days e
            (ap (λ x. any (λ n1. text_eq n1 x) (un_del_dirs path days)) (sym same) ∙ h) in
        ground (arith, kept, spared path p days es h))
]

-- The deletion that a log runs for itself deletes the directory of none of the days that it keeps, as
-- many as its option says, counted back from today.
pub auto_del_dir_recent :
    (exists : Bool) (path : Text) (day_str : ℕ → Text) (save_days a : ℕ) (es : List Entry)
    → a < save_days
    → any
        (λ q. text_eq q (file_dir_with_day_suffix path (day_str a)))
        (auto_del_dir exists path day_str save_days es)
      ≡ false
unfolding auto_del_dir
auto_del_dir_recent false path day_str n a es h = refl
auto_del_dir_recent true path day_str n a es h =
    spared path (file_dir_with_day_suffix path (day_str a)) (latest_n_day_str day_str 0 n) es
      (days_cover path day_str a 0 n (omega arith) (omega (arith, h)))

-- A directory that the file's name and some digits name.
pub record IsDayDir (path : Text) (es : List Entry) (p : Text) : Type 0 where
  pub entry : Entry
  pub is_entry : Mem entry es
  pub its_path : entry.path ≡ p
  pub suffix : Text
  pub named : entry.name ≡ stem path ++ suffix
  pub suffix_full : suffix ≢ []
  pub suffix_digits : all_digits suffix ≡ true

strip_sound : (p s r : Text) → strip p s ≡ some r → s ≡ p ++ r
unfolding strip
strip_sound [] s r h = some-injective s r h
strip_sound (a ∷ p) [] r h = cc
strip_sound (a ∷ p) (b ∷ s) r h = ground (arith, h, strip_sound p s r)

is_day_dir-suffix :
    (name s : Text)
    → is_day_dir name s ≡ true
    → (ds : Text) × (s ≡ name ++ ds) × (ds ≢ []) × (all_digits ds ≡ true)
is_day_dir-suffix name s h = elim (Option-cases (strip name s)) [
  | inl e ↦ (unfold is_day_dir in ground (arith, h, e))
  | inr (ds, e) ↦ elim (List-cases ds) [
    | inl q ↦ (unfold is_day_dir in ground (arith, h, e, q))
    | inr (c, r, q) ↦ (
      ds,
      strip_sound name s ds e,
      λ z. (let bad : [] ≡ c ∷ r = sym z ∙ q in cc),
      (unfold is_day_dir in ground (arith, h, e, q)),
    )
  ]
]

is_deleted-IsDayDir :
    (path : Text) (days : List Text) (e : Entry) (es : List Entry)
    → is_deleted path days e ≡ true
    → Mem e es
    → IsDayDir path es e.path
is_deleted-IsDayDir path days e es h m =
    let day : is_day_dir (stem path) e.name ≡ true = (unfold is_deleted in ground (arith, h)) in
    let (ds, n, f, g) = is_day_dir-suffix (stem path) e.name day in
    record {
      entry = e;
      is_entry = m;
      its_path = refl;
      suffix = ds;
      named = n;
      suffix_full = f;
      suffix_digits = g;
    }

wider :
    (path p : Text) (e : Entry) (es : List Entry) → IsDayDir path es p → IsDayDir path (e ∷ es) p
wider path p e es d = record {
  entry = d.entry;
  is_entry = mem-cons_of_mem e d.is_entry;
  its_path = d.its_path;
  suffix = d.suffix;
  named = d.named;
  suffix_full = d.suffix_full;
  suffix_digits = d.suffix_digits;
}

All-wider :
    (path : Text) (e : Entry) (es : List Entry) (ps : List Text)
    → All (IsDayDir path es) ps
    → All (IsDayDir path (e ∷ es)) ps
All-wider path e es [] h = h
All-wider path e es (p ∷ ps) (d, h) = (wider path p e es d, All-wider path e es ps h)

del_list-IsDayDir :
    (path : Text) (days : List Text) (es : List Entry)
    → All (IsDayDir path es) (del_list path days es)
unfolding del_list
del_list-IsDayDir path days [] = tt
del_list-IsDayDir path days (e ∷ es) = elim (Bool-cases (is_deleted path days e)) [
  | inl t ↦ rw (t) (
    is_deleted-IsDayDir path days e (e ∷ es) t mem-cons_self,
    All-wider path e es _ (del_list-IsDayDir path days es),
  )
  | inr f ↦ rw (f) (All-wider path e es _ (del_list-IsDayDir path days es))
]

-- Only directories are deleted that were met and are named by the file's name and digits behind it.
pub auto_del_dir-IsDayDir :
    (exists : Bool) (path : Text) (day_str : ℕ → Text) (save_days : ℕ) (es : List Entry)
    → All (IsDayDir path es) (auto_del_dir exists path day_str save_days es)
unfolding auto_del_dir
auto_del_dir-IsDayDir false path day_str n es = tt
auto_del_dir-IsDayDir true path day_str n es =
    del_list-IsDayDir path (latest_n_day_str day_str 0 n) es
