-- ===== src/G2db/CoherenceTests.antt =====
-- A bean with two conditions of one length, met in two orders by two processes.
use gof.Base.{
  zero, suc, ◌≡◌, refl, sym, ap, ◌∙◌, inl, inr, true, false, Option, none, some, List, [], ◌∷◌,
  ◌++◌, map, append_assoc, append-nil, arith, ltb, if◌then◌else◌, Bool-cases, length, Text, codes,
  text_eq,
}
use gof.Base.Dict.{put}
use gof.Base.Int.{pos}
use gof.Base.Decimal.{int_text}
use gof.Base.Replace.{contains}
use gof.Base.Sort.{sort}
use gof.J2rpc.Names.{to_lower}
use gof.Fault.{ok}
use gof.G2db.Cache.{cache_null}
use gof.G2db.Mysql.{Beans, mem_key, cache_mem_keys, cache_get}
use gof.G2db.Redis.{
  Json, pub_del_mem_name, publish_message, sub_handlers, sub_message, format_with_app_name,
}
use gof.G2db.Redis.Delivery.{IsJson}
use gof.G2db.Conditions.{
  Iteration, Naming, Bean, int, text, field, end, CompoundIndex, values, make_query, find_all,
  bean_index_queries, equation, given,
}
use gof.G2db.Conditions.Order.{IsIteration, IsNaming}
use gof.G2db.Coherence.{cache_get-published}
use gof.G2db.RowTests.{World, memory, memory-IsStore, texts}
use mathlib.Core.List.{reverse, flat_map}
use mathlib.Core.List.Permᴰ
use mathlib.Core.List.{Permᴰ}

-- shorter texts first, and else as given
abbrev insert_shorter : Text → List Text → List Text
insert_shorter s [] = s ∷ []
insert_shorter s (t ∷ ts) =
    let rest = insert_shorter s ts in if ltb (length t) (length s) then t ∷ rest else s ∷ t ∷ ts

abbrev shorter_first : List Text → List Text
shorter_first [] = []
shorter_first (s ∷ ts) = insert_shorter s (shorter_first ts)

insert_shorter-Perm : (s : Text) (ts : List Text) → Permᴰ (insert_shorter s ts) (s ∷ ts)
insert_shorter-Perm s [] = Permᴰ.refl _
insert_shorter-Perm s (t ∷ ts) = elim (Bool-cases (ltb (length t) (length s))) [
  | inl h ↦ rw (h) (Permᴰ.trans (Permᴰ.cons refl (insert_shorter-Perm s ts)) (Permᴰ.swap refl refl))
  | inr h ↦ rw (h) (Permᴰ.refl (s ∷ t ∷ ts))
]

shorter_first-Perm : (ts : List Text) → Permᴰ (shorter_first ts) ts
shorter_first-Perm [] = Permᴰ.nil
shorter_first-Perm (s ∷ ts) =
    Permᴰ.trans (insert_shorter-Perm s (shorter_first ts)) (Permᴰ.cons refl (shorter_first-Perm ts))

abbrev pub naming : Naming
naming = record { field_name = λ t. map to_lower t; by_length = shorter_first }

naming-IsNaming : IsNaming naming
naming-IsNaming = record { by_length-Perm = shorter_first-Perm }

abbrev pub forwards : Iteration
forwards = record { range = λ m. m; range_columns = λ m. m }

abbrev backwards : Iteration
backwards = record { range = λ m. reverse m; range_columns = λ m. reverse m }

forwards-IsIteration : IsIteration forwards
forwards-IsIteration = record {
  range-Perm = λ m. Permᴰ.refl m;
  range_columns-Perm = λ m. Permᴰ.refl m;
}

backwards-IsIteration : IsIteration backwards
backwards-IsIteration = record {
  range-Perm = λ m. Permᴰ.reverse m;
  range_columns-Perm = λ m. Permᴰ.reverse m;
}

abbrev user : Bean
user = record {
  fields =
      field (codes "Id") (some (codes "pk")) (int (pos 7))
        (field (codes "No") (some (codes "unique")) (int (pos 1)) end);
  indexes = none;
}

abbrev id_first : List Text
id_first = codes "id=7" ∷ codes "no=1" ∷ []

abbrev no_first : List Text
no_first = codes "no=1" ∷ codes "id=7" ∷ []

values_forwards : values naming forwards user [] ≡ some id_first
unfolding values find_all put text_eq contains to_lower int_text bean_index_queries equation given
values_forwards = refl

values_backwards : values naming backwards user [] ≡ some no_first
unfolding values find_all put text_eq contains to_lower int_text bean_index_queries equation given
values_backwards = refl

abbrev pair : CompoundIndex
pair = record {
  columns = (codes "Kind", int (pos 2)) ∷ (codes "Name", text (codes "bob")) ∷ [];
  unique = true;
}

make_query-pair : make_query naming backwards pair ≡ some (codes "kind=2 AND name='bob'")
unfolding make_query flat_map text_eq to_lower int_text equation sort
make_query-pair = refl

abbrev writer : Beans World Text
writer = record texts { values = λ b. id_first }

abbrev reader : Beans World Text
reader = record texts { values = λ b. no_first; get_row = λ q b w. (ok (some (codes "new")), w) }

-- keys with a mark behind each, and every byte one higher than the mark
abbrev dump_keys : List Text → Text
dump_keys [] = []
dump_keys (k ∷ ks) = map suc k ++ (0 ∷ dump_keys ks)

abbrev parse_keys : Text → Text → List Text
parse_keys cur [] = []
parse_keys cur (zero ∷ s) = cur ∷ parse_keys [] s
parse_keys cur (suc c ∷ s) = parse_keys (cur ++ c ∷ []) s

parse-dump_key :
    (cur k : Text) (s : Text) → parse_keys cur (map suc k ++ (0 ∷ s)) ≡ (cur ++ k) ∷ parse_keys [] s
parse-dump_key cur [] s = ap (λ c. c ∷ parse_keys [] s) (sym (append-nil cur))
parse-dump_key cur (c ∷ k) s =
    parse-dump_key (cur ++ c ∷ []) k s ∙ ap (λ t. t ∷ parse_keys [] s) (append_assoc cur (c ∷ []) k)

parse-dump : (ks : List Text) → parse_keys [] (dump_keys ks) ≡ ks
parse-dump [] = refl
parse-dump (k ∷ ks) = parse-dump_key [] k (dump_keys ks) ∙ ap (λ r. k ∷ r) (parse-dump ks)

-- a payload is its name as a key, and then the data
abbrev parse_payload : Text → Text → Option (Text × Option Text)
parse_payload cur [] = none
parse_payload cur (zero ∷ s) = some (cur, some s)
parse_payload cur (suc c ∷ s) = parse_payload (cur ++ c ∷ []) s

parse-payload_dump :
    (cur name raw : Text)
    → parse_payload cur (map suc name ++ (0 ∷ raw)) ≡ some (cur ++ name, some raw)
parse-payload_dump cur [] raw = ap (λ c. some (c, some raw)) (sym (append-nil cur))
parse-payload_dump cur (c ∷ name) raw =
    parse-payload_dump (cur ++ c ∷ []) name raw
    ∙ ap (λ t. some (t, some raw)) (append_assoc cur (c ∷ []) name)

abbrev marked : Json
marked = record {
  dump_keys = λ ks. ok (dump_keys ks);
  parse_keys = λ t. some (parse_keys [] t);
  dump_null = ok [];
  dump_payload = λ name raw. ok (map suc name ++ (0 ∷ raw));
  parse_payload = parse_payload [];
}

marked-IsJson : IsJson marked
marked-IsJson = record {
  parse-keys = λ ks t h. ground (arith, h, parse-dump ks);
  parse-payload = λ name raw t h. ground (arith, h, parse-payload_dump [] name raw);
}

abbrev keys : List Text
keys = codes "user::id=7" ∷ codes "user::no=1" ∷ []

keys_published : marked.dump_keys (cache_mem_keys writer (codes "7")) ≡ ok (dump_keys keys)
unfolding cache_mem_keys
keys_published = refl

abbrev note : Text
note = map suc (codes "app_DelMemCache") ++ (0 ∷ dump_keys keys)

note_published : publish_message marked (pub_del_mem_name (codes "app")) (dump_keys keys) ≡ ok note
unfolding publish_message pub_del_mem_name format_with_app_name
note_published = refl

abbrev stale : World
stale = (codes "user::no=1", codes "old") ∷ []

new_full : text_eq (codes "new") cache_null ≡ false
unfolding text_eq
new_full = refl

abbrev after : World
after = sub_message marked (sub_handlers marked memory (codes "app")) note stale

cache_get-published_example : cache_get reader memory (codes "7") after ≡ (
  ok (codes "new"),
  (memory.set (mem_key reader (codes "7") (codes "no=1")) (codes "new") after).1,
)
cache_get-published_example =
    cache_get-published naming forwards backwards forwards-IsIteration backwards-IsIteration
      naming-IsNaming writer reader (codes "7") user [] marked marked-IsJson memory memory-IsStore
      (codes "app") (codes "no=1") (codes "id=7" ∷ []) (dump_keys keys) note (codes "new")
      (codes "new") stale after refl values_forwards values_backwards refl keys_published
      note_published refl refl new_full
