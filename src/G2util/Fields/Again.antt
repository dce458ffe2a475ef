-- ===== src/G2util/Fields/Again.antt =====
-- Instances that are asked for twice.
use gof.Base.{◌≡◌, refl, inl, inr, some, List, [], ◌∷◌, arith, Option-cases, Text}
use gof.G2util.Fields.{
  Field, GoValue, nil, ptr, struct, plain, has_tag, append_field, tag_fields, tag_behind,
  object_tag_instances,
}

module _ {P : Type 0} (new_of again_of : Text → P) (tag : Text) where
  append_field_again :
      (f : Field P)
      → append_field again_of tag (append_field new_of tag f).1
        ≡ ((append_field new_of tag f).0, (append_field new_of tag f).1)
  unfolding append_field has_tag
  append_field_again f = ground arith

  tag_fields_again :
      (fs : List (Field P))
      → tag_fields again_of tag (tag_fields new_of tag fs).1
        ≡ ((tag_fields new_of tag fs).0, (tag_fields new_of tag fs).1)
  unfolding tag_fields
  tag_fields_again [] = refl
  tag_fields_again (f ∷ fs) = rw (append_field_again f, tag_fields_again fs) refl

  tag_behind_again :
      (v u : GoValue P) (ps : List P)
      → tag_behind new_of tag v ≡ some (ps, u)
      → tag_behind again_of tag u ≡ some (ps, u)
  unfolding tag_behind
  tag_behind_again nil u ps h = cc
  tag_behind_again plain u ps h = cc
  tag_behind_again (struct fs) u ps h = ground (arith, h, tag_fields_again fs)
  tag_behind_again (ptr v) u ps h = elim (Option-cases (tag_behind new_of tag v)) [
    | inl e ↦ ground (arith, e, h)
    | inr ((qs, x), e) ↦ (let ih = tag_behind_again v x qs e in ground (arith, e, h, ih))
  ]

  -- Asking an object for the instances under a tag a second time gives the same instances in the same
  -- order, and changes nothing: nil pointers were set the first time, and every other pointer is
  -- left as it is.
  pub object_tag_instances_again :
      (v u : GoValue P) (ps : List P)
      → object_tag_instances new_of tag v ≡ some (ps, u)
      → object_tag_instances again_of tag u ≡ some (ps, u)
  unfolding object_tag_instances tag_behind
  object_tag_instances_again nil u ps h = cc
  object_tag_instances_again plain u ps h = cc
  object_tag_instances_again (struct fs) u ps h = ground (arith, h)
  object_tag_instances_again (ptr v) u ps h = elim (Option-cases (tag_behind new_of tag v)) [
    | inl e ↦ ground (arith, e, h)
    | inr ((qs, x), e) ↦ (let ih = tag_behind_again v x qs e in ground (arith, e, h, ih))
  ]
