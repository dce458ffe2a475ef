-- ===== src/G2util/Maps.antt =====
-- g2util/map.go: maps, and beans as maps by way of JSON.
pub mod Merge
pub mod Getters
use gof.Base.{[], ◌∷◌, Text}
use gof.Base.Dict.{Dict, put}
use gof.Fault.{Result, ok, err}

-- The JSON of beans of type `B` and of maps with values of type `V`, and `NewValue`, an empty bean of
-- the same type. Text is read into a bean that is there.
pub record Json (B V : Type 0) : Type 0 where
  pub marshal : B → Result Text
  pub unmarshal : Text → B → Result B
  pub marshal_map : Dict V → Result Text
  pub unmarshal_map : Text → Result (Dict V)
  pub new_value : B → B

-- `MergeTo`; the keys of a map are distinct, so the order does not matter
unfoldable pub merge_to : {V : Type 0} → Dict V → Dict V → Dict V
merge_to [] mp = mp
merge_to ((k, v) ∷ m) mp = put k v (merge_to m mp)

abbrev pub then_result : {A B : Type 0} → Result A → (A → Result B) → Result B
then_result (ok a) f = f a
then_result (err e) f = err e

module _ {B V : Type 0} (j : Json B V) where
  -- `Bean2Map`
  unfoldable pub bean_to_map : B → Result (Dict V)
  bean_to_map bean = then_result (j.marshal bean) j.unmarshal_map

  -- `ToBean`: what the bean becomes
  unfoldable pub to_bean : Dict V → B → Result B
  to_bean m bean = then_result (j.marshal_map m) (λ t. j.unmarshal t bean)

  -- `Merge2Bean`
  unfoldable pub merge_to_bean : Dict V → B → Result B
  unfolding bean_to_map merge_to to_bean
  merge_to_bean m bean = then_result (bean_to_map bean) (λ mp. to_bean (merge_to m mp) bean)

  -- `CopyBean`
  unfoldable pub copy_bean : B → Result B
  unfolding bean_to_map to_bean
  copy_bean bean = then_result (bean_to_map bean) (λ mp. to_bean mp (j.new_value bean))

  -- `MergeBeans`: what the destination becomes
  unfoldable pub merge_beans : B → B → Result B
  unfolding bean_to_map merge_to_bean
  merge_beans dst src = then_result (bean_to_map src) (λ mp. merge_to_bean mp dst)
