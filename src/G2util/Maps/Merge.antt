-- ===== src/G2util/Maps/Merge.antt =====
-- What a merge of beans keeps.
use gof.Base.{◌≡◌, refl, none, some, [], ◌∷◌, arith, Text, text_eq_iff}
use gof.Base.Dict.{Dict, get, get-put}
use gof.Fault.{ok}
use gof.G2util.Maps.{Json, merge_to, bean_to_map, to_bean, merge_to_bean, merge_beans}

pub get-merge_to :
    {V : Type 0} (k : Text) (m mp : Dict V)
    → get k (merge_to m mp) ≡ elim (get k m) [ some v ↦ some v | none ↦ get k mp ]
unfolding merge_to get
get-merge_to k [] mp = refl
get-merge_to k ((i, v) ∷ m) mp =
    ground (arith, get-put i k v (merge_to m mp), get-merge_to k m mp, text_eq_iff i k)

-- If both beans read as maps, `MergeBeans` reads into the destination the JSON of a map that has,
-- for every field, the value of the source if the source's map has the field, and otherwise that of
-- the destination.
pub merge_beans-fields :
    {B V : Type 0} (j : Json B V) (dst src : B) (md ms : Dict V)
    → bean_to_map j dst ≡ ok md
    → bean_to_map j src ≡ ok ms
    → (m : Dict V) × (merge_beans j dst src ≡ to_bean j m dst)
      × ((k : Text) → get k m ≡ elim (get k ms) [ some v ↦ some v | none ↦ get k md ])
merge_beans-fields j dst src md ms hd hs = (
  merge_to ms md,
  (unfold merge_beans merge_to_bean in ground (arith, hd, hs)),
  λ k. get-merge_to k ms md,
)
