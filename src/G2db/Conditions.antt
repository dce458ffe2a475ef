-- ===== src/G2db/Conditions.antt =====
-- g2db/cache.go: the conditions by which a bean is found, read off its fields, and the compound
-- indexes of g2db/mysql.go. A panic is `none`.
pub mod Order
pub mod Index
use gof.Base.{
  zero, suc, Bool, true, false, not, ◌||◌, Option, none, some, List, [], ◌∷◌, ◌++◌, map,
  if◌then◌else◌, any, Text, codes, text_eq,
}
use gof.Base.Dict.{Dict, put}
use gof.Base.Int.{ℤ, pos, negsuc}
use gof.Base.Decimal.{int_text}
use gof.Base.Replace.{contains}
use gof.Base.Sort.{sort}
use gof.J2rpc.Names.{to_lower}
use gof.G2db.Query.{join_and}
use mathlib.Core.List.{flat_map}

-- What reflect finds in a field behind pointers: nothing behind a nil pointer, a string, an integer,
-- a struct, or a value of another kind. Of the last two it is known whether they are zero.
mutual
  pub data Value : Type 0 where
    nothing : Value
    text : Text → Value
    int : ℤ → Value
    struct : Bool → Fields → Value
    other : Bool → Value

  -- the fields in order, with their names and their xorm tags
  pub data Fields : Type 0 where
    end : Fields
    field : Text → Option Text → Value → Fields → Fields

-- `IsZero`
unfoldable pub is_zero : Value → Bool
is_zero nothing = true
is_zero (text []) = true
is_zero (text (c ∷ s)) = false
is_zero (int (pos zero)) = true
is_zero (int (pos (suc n))) = false
is_zero (int (negsuc n)) = false
is_zero (struct z fs) = z
is_zero (other z) = z

-- `CompoundIndex` without its session. A column's value is read as it is: a pointer is one of another
-- kind, and nil is nothing.
pub record CompoundIndex : Type 0 where
  pub columns : Dict Value
  pub unique : Bool

-- a bean: its fields, and its compound indexes if its type has any
pub record Bean : Type 0 where
  pub fields : Fields
  pub indexes : Option (List CompoundIndex)

-- a further condition: a text, as `Stringer` and `ToStr` give it too, or several
pub data Condition : Type 0 where
  one : Text → Condition
  many : List Text → Condition

-- The order in which one call ranges over maps, which Go does not fix.
pub record Iteration : Type 0 where
  pub range : Dict Text → List (Text × Text)
  pub range_columns : Dict Value → List (Text × Value)

-- The libraries: names of columns, and gubrak's order by length.
pub record Naming : Type 0 where
  pub field_name : Text → Text
  pub by_length : List Text → List Text

-- `cacheValString`
unfoldable pub cache_val_string : Value → Option Text
unfolding int_text
cache_val_string (text t) = some (b'\'' ∷ (t ++ b'\'' ∷ []))
cache_val_string (int i) = some (int_text i)
cache_val_string _ = none

-- what `findConditionN` does with a field, by its tag
pub data Role : Type 0 where
  skipped : Role
  extended : Role
  keyed : Role

unfoldable pub role : Option Text → Role
unfolding contains to_lower text_eq
role none = skipped
role (some tag) =
    if contains tag (codes "-")
    then skipped
    else if text_eq (map to_lower tag) (codes "extends")
    then extended
    else if contains (map to_lower tag) (codes "pk") || contains (map to_lower tag) (codes "unique")
    then keyed
    else skipped

-- `fmt.Sprintf("%s=%s", k, v)`
unfoldable pub equation : Text × Text → Text
equation (k, v) = k ++ (codes "=" ++ v)

-- the further conditions of `Values`
unfoldable pub given : List Condition → List Text
given [] = []
given (one t ∷ cs) = t ∷ given cs
given (many ts ∷ cs) = ts ++ given cs

module _ (n : Naming) where
  -- the end of `findConditionN`: the condition of a field that is set
  unfoldable pub add_condition : Text → Value → Dict Text → Option (Dict Text)
  unfolding is_zero cache_val_string
  add_condition name v mp =
      if is_zero v
      then some mp
      else elim (cache_val_string v) [ none ↦ none | some s ↦ some (put (n.field_name name) s mp) ]

  -- `findAllCacheCondition`, and `findConditionN` on one field; only a struct has fields
  unfoldable mutual
    unfolding role add_condition

    pub find_all : Fields → Dict Text → Option (Dict Text)
    find_all end mp = some mp
    find_all (field name tag v rest) mp = elim (find_one name (role tag) v mp) [
      | none ↦ none
      | some mp' ↦ find_all rest mp'
    ]

    pub find_one : Text → Role → Value → Dict Text → Option (Dict Text)
    find_one name skipped v mp = some mp
    find_one name keyed v mp = add_condition name v mp
    find_one name extended (struct z fs) mp = find_all fs mp
    find_one name extended nothing mp = none
    find_one name extended (text t) mp = none
    find_one name extended (int i) mp = none
    find_one name extended (other z) mp = none

  -- whether a column makes `makeQuery` panic
  unfoldable pub is_unsupported : Text × Value → Bool
  unfolding is_zero cache_val_string
  is_unsupported (k, v) =
      if is_zero v then false else elim (cache_val_string v) [ none ↦ true | some s ↦ false ]

  -- the condition of a column that is set
  unfoldable pub column_query : Text × Value → List Text
  unfolding is_zero cache_val_string equation
  column_query (k, v) =
      if is_zero v
      then []
      else elim (cache_val_string v) [ none ↦ [] | some s ↦ equation (n.field_name k, s) ∷ [] ]

  module _ (it : Iteration) where
    -- `makeQuery`
    unfoldable pub make_query : CompoundIndex → Option Text
    unfolding is_unsupported column_query join_and sort
    make_query c =
        if not c.unique
        then some []
        else if any is_unsupported (it.range_columns c.columns)
        then none
        else some
            (join_and (n.by_length (sort (flat_map column_query (it.range_columns c.columns)))))

    -- the loop over the compound indexes: queries that are empty are left out
    unfoldable pub index_queries : List CompoundIndex → Option (List Text)
    unfolding make_query
    index_queries [] = some []
    index_queries (c ∷ cs) = elim (make_query c) [
      | none ↦ none
      | some q ↦ elim (index_queries cs) [
        | none ↦ none
        | some qs ↦ some (elim q [ [] ↦ qs | d ∷ r ↦ (d ∷ r) ∷ qs ])
      ]
    ]

    unfoldable pub bean_index_queries : Bean → Option (List Text)
    unfolding index_queries
    bean_index_queries bean = elim bean.indexes [ none ↦ some [] | some cs ↦ index_queries cs ]

    -- `Values`
    unfoldable pub values : Bean → List Condition → Option (List Text)
    unfolding find_all bean_index_queries equation given
    values bean conditions = elim (find_all bean.fields []) [
      | none ↦ none
      | some mp ↦ elim (bean_index_queries bean) [
        | none ↦ none
        | some ci ↦ some (n.by_length (map equation (it.range mp) ++ (ci ++ given conditions)))
      ]
    ]
