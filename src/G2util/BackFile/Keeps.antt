-- ===== src/G2util/BackFile/Keeps.antt =====
-- What is logged, across the backups, the file and the buffer.
use mathlib.Core.List.{flatten}
use gof.Base.{
  ℕ, ◌≡◌, refl, sym, ap, ◌∙◌, ◌≢◌, inl, inr, true, none, some, List, [], ◌∷◌, ◌++◌, append_assoc,
  append-nil, arith, ltb, leb, ◌==◌, if◌then◌else◌, Bool-cases, Option-cases, length, Text,
}
use gof.G2util.BackFile.{InnerIo, Disk, file_copy_with_index, flush, write_locked, write}

-- everything that was logged: the backups in order, the file, the buffer
unfoldable pub logged : InnerIo → Text
logged i = flatten i.backups ++ (i.file ++ i.buf)

flatten-append {ℓ} :
    {A : Type ℓ} (xs ys : List (List A)) → flatten (xs ++ ys) ≡ flatten xs ++ flatten ys
unfolding flatten
flatten-append [] ys = refl
flatten-append (x ∷ xs) ys = simp (flatten-append xs, append_assoc)

-- a disk on which what is written is written whole, and a file that was copied can be cut; a backup may
-- fail, but not behind the creation of its file
pub record Sound (d : Disk) : Type 0 where
  pub writes : d.write_error ≡ none
  pub copies : (n : ℕ) (e : Text) → d.copy_error ≢ some (some n, e)
  pub truncates : d.truncates ≡ true

moved : (bs : List Text) (f : Text) → flatten (bs ++ f ∷ []) ≡ flatten bs ++ f
moved bs f = flatten-append bs (f ∷ []) ∙ ap (λ x. flatten bs ++ x) (unfold flatten in append-nil f)

logged-file_copy :
    (d : Disk) (i : InnerIo) → Sound d → i.buf ≡ [] → logged (file_copy_with_index d i).1 ≡ logged i
unfolding logged file_copy_with_index
logged-file_copy d i s e = elim (Option-cases d.copy_error) [
  | inl c ↦ ground (
    arith,
    c,
    s.truncates,
    e,
    moved i.backups i.file,
    append-nil i.file,
    append-nil (flatten i.backups ++ i.file),
  )
  | inr ((none, t), c) ↦ ground (arith, c, e)
  | inr ((some n, t), c) ↦ absurd (s.copies n t c)
]

logged-wrote : (i : InnerIo) → logged (record i { file = i.file ++ i.buf; buf = [] }) ≡ logged i
unfolding logged
logged-wrote i = ap (λ x. flatten i.backups ++ x) (append-nil (i.file ++ i.buf))

logged-flush : (d : Disk) (i : InnerIo) → Sound d → logged (flush d i).1 ≡ logged i
logged-flush d i s =
    let wrote : InnerIo = record i { file = i.file ++ i.buf; buf = [] } in
    elim (Bool-cases (length i.buf == 0)) [
      | inl z ↦ (unfold flush in ground (arith, z))
      | inr f ↦ elim (Bool-cases (leb i.opt.file_max_size (length (i.file ++ i.buf)))) [
        | inl c ↦
            (let kept = logged-file_copy d wrote s refl ∙ logged-wrote i in
              unfold flush in ground (arith, f, s.writes, c, kept))
        | inr n ↦
            (let kept = logged-wrote i in unfold flush in ground (arith, f, s.writes, n, kept))
      ]
    ]

logged-held : (i : InnerIo) (p : Text) → logged (record i { buf = i.buf ++ p }) ≡ logged i ++ p
unfolding logged
logged-held i p =
    ap (λ x. flatten i.backups ++ x) (sym (append_assoc i.file i.buf p))
    ∙ sym (append_assoc (flatten i.backups) (i.file ++ i.buf) p)

logged-write_locked :
    (d : Disk) (p : Text) (i : InnerIo) → Sound d → logged (write_locked d p i).1.1 ≡ logged i ++ p
logged-write_locked d p i s =
    let held : InnerIo = record i { buf = i.buf ++ p } in
    elim (Bool-cases (ltb (length (i.buf ++ p)) i.opt.buffer_size)) [
      | inl t ↦ (let k = logged-held i p in unfold write_locked in ground (arith, t, k))
      | inr f ↦
          (let k = logged-flush d held s ∙ logged-held i p in
            unfold write_locked in ground (arith, f, k))
    ]

-- On a disk whose writes and cuts succeed, and where a backup succeeds or fails before its file is
-- created: a write to an open log adds exactly its bytes at the end of what is logged, and a write to a
-- closed one adds nothing.
pub logged-write :
    (d : Disk) (p : Text) (i : InnerIo)
    → Sound d
    → logged (write d p i).1.1 ≡ logged i ++ (if i.closed then [] else p)
unfolding write
logged-write d p i s = ground (arith, logged-write_locked d p i s, append-nil (logged i))
