-- ===== src/G2db/Query.antt =====
-- g2db/mysql_query_rows.go: queries of one page of a table's rows. The driver is a parameter; the
-- template of the statement only puts its parts in place.
pub mod Pages
pub mod Tables
use gof.Base.{
  ℕ, zero, suc, ◌+◌, ◌-◌, ◌*◌, ◌/◌, ◌%◌, Bool, true, false, Option, none, some, List, [], ◌∷◌, ◌++◌,
  map, ltb, ◌==◌, if◌then◌else◌, Text, codes,
}
use gof.Base.Int.{ℤ, pos, negsuc, ltb_int}
use gof.Base.Decimal.{int_text}
use gof.Fault.{ok, Action, pure, ◌>>=◌}

-- `MysqlQueryRowsParams`
pub record Params : Type 0 where
  pub page : ℤ
  pub page_count : ℤ
  pub conditions : List Text
  pub order_by : Text
  pub asc : Bool
  pub time_column : Text
  pub time_between : Text

-- `MysqlRows`
pub record MysqlRows (B : Type 0) : Type 0 where
  pub pages : ℤ
  pub rows : List B
  pub count : ℕ

-- The driver: quoting of names, the rows of a statement, the count under a condition, and the hook
-- that the row's type may have, which may change a row.
pub record Driver (W B : Type 0) : Type 0 where
  pub quote : Text → Text
  pub find : Text → Action W (List B)
  pub count : Text → Text → Action W ℕ
  pub after_query : Option (B → W → B × W)

abbrev pub max_count : ℤ
max_count = pos 100

abbrev pub is_zero_int : ℤ → Bool
is_zero_int (pos zero) = true
is_zero_int (pos (suc n)) = false
is_zero_int (negsuc n) = false

abbrev pub or_text : Text → Text → Text
or_text [] d = d
or_text (c ∷ s) d = c ∷ s

abbrev pub or_int : ℤ → ℤ → ℤ
or_int i d = if is_zero_int i then d else i

-- the defaults and the limit at the start of `QueryRows`
unfoldable pub normalise : Params → Params
normalise p =
    let count = or_int p.page_count (pos 10) in
    record p {
      page = or_int p.page (pos 1);
      page_count = if ltb_int max_count count then max_count else count;
      order_by = or_text p.order_by (codes "id");
      time_column = or_text p.time_column (codes "created");
    }

-- the products and quotients of Go's int
unfoldable pub mul_int : ℤ → ℤ → ℤ
mul_int (pos a) (pos b) = pos (a * b)
mul_int (negsuc a) (negsuc b) = pos ((a + 1) * (b + 1))
mul_int (pos zero) (negsuc b) = pos 0
mul_int (pos (suc a)) (negsuc b) = negsuc (suc a * (b + 1) - 1)
mul_int (negsuc a) (pos zero) = pos 0
mul_int (negsuc a) (pos (suc b)) = negsuc ((a + 1) * suc b - 1)

unfoldable pub pred_int : ℤ → ℤ
pred_int (pos zero) = negsuc 0
pred_int (pos (suc a)) = pos a
pred_int (negsuc a) = negsuc (a + 1)

-- `params.PageCount * (params.Page - 1)`
unfoldable pub offset : Params → ℤ
unfolding mul_int pred_int
offset p = mul_int p.page_count (pred_int p.page)

-- the pages that `count` rows fill: the quotient, and one more if the remainder is above 0
unfoldable pub pages : ℕ → ℤ → ℤ
pages count (pos n) = pos (count / n + (if ltb 0 (count % n) then 1 else 0))
pages count (negsuc n) =
    let q = count / (n + 1) in
    if ltb 0 (count % (n + 1))
    then (if q == 0 then pos 1 else if q == 1 then pos 0 else negsuc (q - 2))
    else if q == 0
    then pos 0
    else negsuc (q - 1)

-- `strings.Split` at a comma
unfoldable pub split_comma : Text → Text → List Text
split_comma cur [] = cur ∷ []
split_comma cur (c ∷ s) =
    let rest = split_comma [] s in
    let longer = split_comma (cur ++ c ∷ []) s in if c == b',' then cur ∷ rest else longer

-- the condition on the time, if two texts are given
unfoldable pub time_condition : Params → List Text
unfolding split_comma
time_condition p = elim p.time_between [
  | [] ↦ []
  | c ∷ s ↦ elim (split_comma [] (c ∷ s)) [
    | (a ∷ b ∷ []) ↦
        (codes "(`"
          ++ p.time_column
          ++ codes "` BETWEEN '"
          ++ a
          ++ codes "' AND '"
          ++ b
          ++ codes "')")
        ∷ []
    | _ ↦ []
  ]
]

-- `fmt.Sprintf("(%s)", s)` and `strings.Join`
unfoldable pub parenthesised : Text → Text
parenthesised s = codes "(" ++ (s ++ codes ")")

unfoldable pub join_and : List Text → Text
join_and [] = []
join_and (s ∷ []) = s
join_and (s ∷ t ∷ ts) = s ++ (codes " AND " ++ join_and (t ∷ ts))

-- `conditionStr`
unfoldable pub condition_text : Params → Text
unfolding time_condition parenthesised join_and
condition_text p = join_and (map parenthesised (codes "1=1" ∷ (p.conditions ++ time_condition p)))

-- the statement
unfoldable pub statement : (Text → Text) → Text → Params → Text
unfolding condition_text offset int_text
statement quote table p =
    codes "SELECT * FROM "
    ++ (quote table
        ++ (codes " WHERE ("
            ++ (condition_text p
                ++ (codes ") ORDER BY "
                    ++ (quote p.order_by
                        ++ (codes " "
                            ++ ((if p.asc then codes "ASC" else codes "DESC")
                                ++ (codes " LIMIT "
                                    ++ (int_text (offset p)
                                        ++ (codes "," ++ int_text p.page_count))))))))))

-- the loop over the rows at the end
unfoldable pub after_rows : {W B : Type 0} → Option (B → W → B × W) → List B → W → List B × W
after_rows none bs w = (bs, w)
after_rows (some hook) [] w = ([], w)
after_rows (some hook) (b ∷ bs) w =
    let (b', w1) = hook b w in let (bs', w2) = after_rows (some hook) bs w1 in (b' ∷ bs', w2)

module _ {W B : Type 0} (d : Driver W B) where
  -- the count behind rows that were found
  unfoldable pub count_rows : Text → Params → List B → Action W (MysqlRows B)
  unfolding condition_text pages after_rows
  count_rows table p [] = pure (record { pages = pos 0; rows = []; count = 0 })
  count_rows table p (b ∷ bs) = do
    n ← d.count table (condition_text p)
    (λ w.
        let (changed, w') = after_rows d.after_query (b ∷ bs) w in
        (ok (record { pages = pages n p.page_count; rows = changed; count = n }), w'))

  -- `QueryRows` of a table
  unfoldable pub query_rows : Text → Params → Action W (MysqlRows B)
  unfolding normalise statement count_rows
  query_rows table params = do
    found ← d.find (statement d.quote table (normalise params))
    count_rows table (normalise params) found
