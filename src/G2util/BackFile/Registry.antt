-- ===== src/G2util/BackFile/Registry.antt =====
-- g2util/auto_back_file.go `AbFile`: the log files by their paths. A file is named by its place in the
-- list of all that were made.
use gof.Base.{
  ℕ, ◌<◌, ◌≡◌, inl, inr, Option, none, some, List, [], ◌∷◌, ◌++◌, arith, Option-cases, length,
  length-append, Text, codes, text_eq_iff,
}
use gof.Base.Dict.{Dict, get, put, get-put, get-put_self}
use gof.Base.Path.{join_path}
use mathlib.Core.Path
use gof.Fault.{Result, ok, err, Result-cases}
use gof.G2util.BackFile.{InnerIo, Options, new_io, default_options}

-- `AbFile`, with the files it made and those given to the graceful shutdown
pub record AbFile : Type 0 where
  pub files : Dict ℕ
  pub made : List InnerIo
  pub registered : List ℕ

-- `constructor`
abbrev pub constructed : AbFile
constructed = record { files = []; made = []; registered = [] }

-- the options of a call; a nil one counts as none
unfoldable pub options_of : List (Option Options) → Options
options_of [] = default_options
options_of (none ∷ os) = default_options
options_of (some o ∷ os) = o

-- `newIO`, with what opening the file gives: its bytes, or an error
unfoldable pub new_io_at : Text → List (Option Options) → Result Text → AbFile → Result ℕ × AbFile
unfolding new_io options_of
new_io_at path opts opened a = elim (get path a.files) [
  | some h ↦ (ok h, a)
  | none ↦ elim opened [
    | err e ↦ (err e, a)
    | ok bytes ↦ (
      ok (length a.made),
      record a {
        files = put path (length a.made) a.files;
        made = a.made ++ new_io bytes (options_of opts) ∷ [];
      },
    )
  ]
]

-- `MustNewIO`; an error is a panic, `none`
unfoldable pub must_new_io :
    Text → List (Option Options) → Result Text → AbFile → Option (ℕ × AbFile)
unfolding new_io_at
must_new_io path opts opened a =
    let (r, a') = new_io_at path opts opened a in
    elim r [ err e ↦ none | ok h ↦ some (h, record a' { registered = a'.registered ++ h ∷ [] }) ]

-- `MustLogIO`
unfoldable pub must_log_io : Text → Text → Result Text → AbFile → Option (ℕ × AbFile)
unfolding must_new_io join_path
must_log_io root name opened a =
    must_new_io (join_path (join_path root (codes "logs")) (name ++ codes ".log")) [] opened a

-- Every registered path names a file that was made, and no two paths name one file.
pub record IsRegistry (a : AbFile) : Type 0 where
  pub made_lt : (p : Text) (h : ℕ) → get p a.files ≡ some h → h < length a.made
  pub apart : (p q : Text) (h : ℕ) → get p a.files ≡ some h → get q a.files ≡ some h → p ≡ q

new_entry-IsRegistry :
    (path : Text) (i : InnerIo) (a : AbFile)
    → IsRegistry a
    → IsRegistry (record a { files = put path (length a.made) a.files; made = a.made ++ i ∷ [] })
new_entry-IsRegistry path i a r = record {
  made_lt = λ p h e. ground (
    arith,
    e,
    get-put path p (length a.made) a.files,
    length-append a.made (i ∷ []),
    r.made_lt p h,
  );
  apart = λ p q h e f. ground (
    arith,
    e,
    f,
    get-put path p (length a.made) a.files,
    get-put path q (length a.made) a.files,
    text_eq_iff path p,
    text_eq_iff path q,
    r.made_lt p h,
    r.made_lt q h,
    r.apart p q h,
  );
}

-- From a registry where every path names a file that was made and no two paths name one file: a file
-- that `newIO` gives leaves it so, and the next call for the path, with whatever options, gives the
-- same file and opens nothing.
pub new_io_at_again :
    (path : Text) (opts later : List (Option Options)) (opened reopened : Result Text)
    (a a' : AbFile) (h : ℕ)
    → IsRegistry a
    → new_io_at path opts opened a ≡ (ok h, a')
    → IsRegistry a' × (new_io_at path later reopened a' ≡ (ok h, a'))
new_io_at_again path opts later opened reopened a a' h r q =
    elim (Option-cases (get path a.files)) [
      | inr (k, e) ↦
          (let same : a ≡ a' = (unfold new_io_at in ground (arith, q, e)) in
            let found : new_io_at path later reopened a ≡ (ok h, a') =
              (unfold new_io_at in ground (arith, q, e)) in
            (
              Path.subst IsRegistry same r,
              Path.subst (λ x. new_io_at path later reopened x ≡ (ok h, a')) same found,
            ))
      | inl e ↦ elim (Result-cases opened) [
        | inr (x, o) ↦ (unfold new_io_at in ground (arith, q, e, o))
        | inl (bytes, o) ↦
            (let i = new_io bytes (options_of opts) in
              let x : AbFile = record a {
                files = put path (length a.made) a.files;
                made = a.made ++ i ∷ [];
              } in
              let same : x ≡ a' = (unfold new_io_at in ground (arith, q, e, o)) in
              let number : length a.made ≡ h = (unfold new_io_at in ground (arith, q, e, o)) in
              let found : new_io_at path later reopened x ≡ (ok h, x) =
                (unfold new_io_at in
                  ground (arith, number, get-put_self path (length a.made) a.files)) in
              (
                Path.subst IsRegistry same (new_entry-IsRegistry path i a r),
                Path.subst (λ y. new_io_at path later reopened y ≡ (ok h, y)) same found,
              ))
      ]
    ]
