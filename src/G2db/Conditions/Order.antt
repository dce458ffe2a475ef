-- ===== src/G2db/Conditions/Order.antt =====
-- Go ranges over a map in an order of its own: what of a bean's conditions depends on it.
use gof.Base.{
  ◌≡◌, refl, sym, ap, ◌∙◌, inl, inr, Bool, none, some, List, [], ◌∷◌, ◌++◌, map, arith,
  Option-cases, any, Text,
}
use gof.Base.Sort.{sort-Perm}
use gof.Base.Dict.{Dict}
use gof.G2db.Conditions.{
  Iteration, Naming, Value, CompoundIndex, Bean, Condition, make_query, index_queries,
  bean_index_queries, values, is_unsupported, column_query, equation, find_all, given,
}
use mathlib.Core.List.Permᴰ
use mathlib.Core.Path
use mathlib.Core.List.{Permᴰ, flat_map}

-- A range meets every pair of a map once.
pub record IsIteration (it : Iteration) : Type 0 where
  pub range-Perm : (m : Dict Text) → Permᴰ (it.range m) m
  pub range_columns-Perm : (m : Dict Value) → Permᴰ (it.range_columns m) m

-- An order by length only moves its elements.
pub record IsNaming (n : Naming) : Type 0 where
  pub by_length-Perm : (ts : List Text) → Permᴰ (n.by_length ts) ts

pub any-Perm : {A : Type 0} (p : A → Bool) {l m : List A} → Permᴰ l m → any p l ≡ any p m
any-Perm p Permᴰ.nil = refl
any-Perm p (Permᴰ.cons e d) = ground (arith, ap p e, any-Perm p d)
any-Perm p (Permᴰ.swap e f) = ground (arith, ap p e, ap p f)
any-Perm p (Permᴰ.trans d e) = any-Perm p d ∙ any-Perm p e

eq-Perm : {A : Type 0} {l m : List A} → l ≡ m → Permᴰ l m
eq-Perm {l = l} e = Path.subst (λ x. Permᴰ l x) e (Permᴰ.refl l)

front-Perm : {A : Type 0} (xs ys r : List A) → Permᴰ (xs ++ (ys ++ r)) (ys ++ (xs ++ r))
front-Perm [] ys r = Permᴰ.refl _
front-Perm (x ∷ xs) ys r =
    Permᴰ.trans (Permᴰ.cons refl (front-Perm xs ys r)) (Permᴰ.symm (Permᴰ.middle x ys (xs ++ r)))

flat_map-Perm :
    {A B : Type 0} (f : A → List B) {l m : List A} → Permᴰ l m → Permᴰ (flat_map f l) (flat_map f m)
unfolding flat_map
flat_map-Perm f Permᴰ.nil = Permᴰ.nil
flat_map-Perm f (Permᴰ.cons {a = a} {b = b} {l₁ = l} {l₂ = m} e d) =
    Permᴰ.trans (Permᴰ.append_left (f a) (flat_map-Perm f d))
      (eq-Perm (ap (λ x. f x ++ flat_map f m) e))
flat_map-Perm f (Permᴰ.swap {a = a} {b = b} {a' = a'} {b' = b'} {l = l} e d) =
    Permᴰ.trans (front-Perm (f a) (f b) (flat_map f l)) (
      eq-Perm (
        ap (λ x. x ++ (f a ++ flat_map f l)) (ap f d)
        ∙ ap (λ x. f a' ++ (x ++ flat_map f l)) (ap f e)))
flat_map-Perm f (Permᴰ.trans d e) = Permᴰ.trans (flat_map-Perm f d) (flat_map-Perm f e)

module _ (n : Naming) (it : Iteration) (bean : Bean) (conditions : List Condition) where
  pub assembled : Dict Text → List Text → List Text
  assembled mp ci = n.by_length (map equation (it.range mp) ++ (ci ++ given conditions))

  values_some :
      (mp : Dict Text) (ci : List Text)
      → find_all n bean.fields [] ≡ some mp
      → bean_index_queries n it bean ≡ some ci
      → values n it bean conditions ≡ some (assembled mp ci)
  unfolding values assembled
  values_some mp ci e q = ground (arith, e, q)

  values_inv :
      (qs : List Text)
      → values n it bean conditions ≡ some qs
      → (mp : Dict Text) × (ci : List Text) × (find_all n bean.fields [] ≡ some mp)
        × (bean_index_queries n it bean ≡ some ci)
        × (assembled mp ci ≡ qs)
  unfolding values assembled
  values_inv qs h = elim (Option-cases (find_all n bean.fields [])) [
    | inl e ↦ ground (arith, h, e)
    | inr (mp, e) ↦ elim (Option-cases (bean_index_queries n it bean)) [
      | inl q ↦ ground (arith, h, e, q)
      | inr (ci, q) ↦ (mp, ci, e, q, ground (arith, h, e, q))
    ]
  ]

module _ (n : Naming) (it1 it2 : Iteration) (l1 : IsIteration it1) (l2 : IsIteration it2) where
  columns-Perm : (m : Dict Value) → Permᴰ (it1.range_columns m) (it2.range_columns m)
  columns-Perm m = Permᴰ.trans (l1.range_columns-Perm m) (Permᴰ.symm (l2.range_columns-Perm m))

  -- The condition of a compound index is the same whatever order its columns are met in.
  pub make_query-order : (c : CompoundIndex) → make_query n it1 c ≡ make_query n it2 c
  unfolding make_query
  make_query-order c = ground (
    arith,
    any-Perm (is_unsupported n) (columns-Perm c.columns),
    sort-Perm (flat_map-Perm (column_query n) (columns-Perm c.columns)),
  )

  index_queries-order : (cs : List CompoundIndex) → index_queries n it1 cs ≡ index_queries n it2 cs
  unfolding index_queries
  index_queries-order [] = refl
  index_queries-order (c ∷ cs) = ground (arith, make_query-order c, index_queries-order cs)

  bean_index_queries-order :
      (bean : Bean) → bean_index_queries n it1 bean ≡ bean_index_queries n it2 bean
  unfolding bean_index_queries
  bean_index_queries-order bean =
      elim bean.indexes
        as (λ o.
          elim o [ none ↦ some [] | some cs ↦ index_queries n it1 cs ]
          ≡ elim o [ none ↦ some [] | some cs ↦ index_queries n it2 cs ]) [
            | none ↦ refl
            | some cs ↦ index_queries-order cs
          ]

  assembled-Perm :
      (laws : IsNaming n) (bean : Bean) (conditions : List Condition) (mp : Dict Text)
      (ci : List Text)
      → Permᴰ (assembled n it1 bean conditions mp ci) (assembled n it2 bean conditions mp ci)
  unfolding assembled
  assembled-Perm laws bean conditions mp ci = Permᴰ.trans (laws.by_length-Perm _) (
      Permᴰ.trans
        (Permᴰ.append_right _
          (Permᴰ.map equation (Permᴰ.trans (l1.range-Perm mp) (Permᴰ.symm (l2.range-Perm mp)))))
        (Permᴰ.symm (laws.by_length-Perm _)))

  -- The conditions of a bean are the same under two orders of iteration, but for their order.
  pub values-Perm :
      (laws : IsNaming n) (bean : Bean) (conditions : List Condition) (qs : List Text)
      → values n it1 bean conditions ≡ some qs
      → (rs : List Text) × (values n it2 bean conditions ≡ some rs) × Permᴰ qs rs
  unfolding assembled
  values-Perm laws bean conditions qs h =
      let (mp, ci, e, q, a) = values_inv n it1 bean conditions qs h in
      (
        assembled n it2 bean conditions mp ci,
        values_some n it2 bean conditions mp ci e (sym (bean_index_queries-order bean) ∙ q),
        Permᴰ.trans (eq-Perm (sym a)) (assembled-Perm laws bean conditions mp ci),
      )
