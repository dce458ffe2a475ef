-- ===== src/G2db/Query/Pages.antt =====
-- How pages divide the rows.
use native.Mathlib.Nat.{div-add-mod, div-lt_iff_lt-mul, mod-lt}
use gof.Base.{
  ℕ, zero, suc, ◌+◌, ◌*◌, ◌/◌, ◌%◌, ◌≤◌, ◌<◌, ◌≡◌, refl, ap, ◌≢◌, inl, inr, [], ◌∷◌, arith, ltb,
  if◌then◌else◌, Bool-cases, Text, codes,
}
use gof.Base.Int.{pos_part, neg_part, ℤ, pos, negsuc, ltb_int, ◌≤ℤ◌}
use gof.G2db.Query.{Params, normalise, mul_int, pred_int, offset, pages, max_count, or_text, or_int}

-- what the defaults and the limit make of parameters
pub record IsNormal (p : Params) : Type 0 where
  pub page : p.page ≢ pos 0
  pub page_count : p.page_count ≢ pos 0
  pub limited : p.page_count ≤ℤ max_count
  pub order_by : p.order_by ≢ []
  pub time_column : p.time_column ≢ []

or_text-ne : (t d : Text) → d ≢ [] → or_text t d ≢ []
or_text-ne [] d h e = h e
or_text-ne (c ∷ s) d h e = cc

pos_suc-ne : (n : ℕ) → pos (suc n) ≢ pos 0
pos_suc-ne n e = omega (arith, ap {B = ℕ} pos_part e)

negsuc-ne : (n : ℕ) → negsuc n ≢ pos 0
negsuc-ne n e = omega (arith, ap {B = ℕ} neg_part e)

or_int-ne : (i d : ℤ) → d ≢ pos 0 → or_int i d ≢ pos 0
or_int-ne (pos zero) d h e = h e
or_int-ne (pos (suc n)) d h e = pos_suc-ne n e
or_int-ne (negsuc n) d h e = negsuc-ne n e

limited-ne : (p : Params) → (normalise p).page_count ≢ pos 0
limited-ne p = elim (Bool-cases (ltb_int max_count (or_int p.page_count (pos 10)))) [
  | inl t ↦ (unfold normalise in rw t (pos_suc-ne 99))
  | inr f ↦ (unfold normalise in rw f (or_int-ne p.page_count (pos 10) (pos_suc-ne 9)))
]

-- Whatever is asked for, neither the page nor its size is 0, the size is at most 100, and there are an
-- order and a column for the time.
pub normalise-IsNormal : (p : Params) → IsNormal (normalise p)
unfolding normalise
normalise-IsNormal p = record {
  page = or_int-ne p.page (pos 1) (pos_suc-ne 0);
  page_count = limited-ne p;
  limited = ground arith;
  order_by = or_text-ne p.order_by (codes "id") (λ e. cc);
  time_column = or_text-ne p.time_column (codes "created") (λ e. cc);
}

fills : (count n : ℕ) → 0 < n → count ≤ (count / n + (if ltb 0 (count % n) then 1 else 0)) * n
fills count n h =
    let split = div-add-mod count n in
    let short = mod-lt count h in
    elim (Bool-cases (ltb 0 (count % n))) [
      | inl t ↦ rw t (omega (arith, split, short))
      | inr f ↦ rw f (ground (arith, split, f))
    ]

-- With a page size `n` above zero, each row is on a page: for the row at index `i` of `count` there
-- is a page from 1 to the number of pages that is reported, whose offset and size reach the row.
pub pages_cover :
    (p : Params) (n count i : ℕ)
    → p.page_count ≡ pos n
    → 0 < n
    → i < count
    → (k last start : ℕ) × (1 ≤ k)
      × (k ≤ last)
      × (pages count p.page_count ≡ pos last)
      × (offset (record p { page = pos k }) ≡ pos start)
      × (start ≤ i)
      × (i < start + n)
pages_cover p n count i e h l =
    let last = count / n + (if ltb 0 (count % n) then 1 else 0) in
    let full = fills count n h in
    let before : i / n < last = (div-lt_iff_lt-mul h).1 (omega (arith, full)) in
    let split = div-add-mod i n in
    let short = mod-lt i h in
    (
      i / n + 1,
      last,
      n * (i / n),
      omega arith,
      omega (arith, before),
      (unfold pages in rw e refl),
      (unfold offset mul_int pred_int in ground (arith, e)),
      omega (arith, split),
      omega (arith, split, short),
    )
