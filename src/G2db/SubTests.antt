-- ===== src/G2db/SubTests.antt =====
-- Runs of subscriptions and of queries of rows.
use gof.Base.{
  ℕ, zero, suc, ◌+◌, ◌≤◌, ◌<◌, ◌≡◌, refl, true, none, some, List, [], ◌∷◌, ◌++◌, arith, length,
  Text, codes,
}
use gof.Base.Int.{pos}
use gof.Fault.{plain, ok, err}
use gof.G2db.Redis.{Json, pub_del_mem_name, publish_message, format_with_app_name}
use gof.G2db.Redis.Delivery.{IsJson}
use gof.G2db.Query.{Params, pages, offset}
use gof.G2db.Query.Pages.{pages_cover}

-- payloads are written as the name's length, the name, and the data; keys as their lengths before each
abbrev split_at : ℕ → Text → Text × Text
split_at zero s = ([], s)
split_at (suc n) [] = ([], [])
split_at (suc n) (c ∷ s) = let (a, b) = split_at n s in (c ∷ a, b)

split_at-append : (a b : Text) → split_at (length a) (a ++ b) ≡ (a, b)
split_at-append [] b = refl
split_at-append (c ∷ a) b = rw (split_at-append a b) refl

abbrev one_key : Json
one_key = record {
  dump_keys = λ ks. elim ks [
    | [] ↦ ok []
    | k ∷ more ↦ elim more [ [] ↦ ok (1 ∷ k) | j ∷ js ↦ err (plain []) ]
  ];
  parse_keys = λ t. elim t [ [] ↦ some [] | c ∷ k ↦ some (k ∷ []) ];
  dump_null = ok [];
  dump_payload = λ name raw. ok (length name ∷ (name ++ raw));
  parse_payload =
      λ t. elim t [ [] ↦ none | n ∷ s ↦ (let (name, raw) = split_at n s in some (name, some raw)) ];
}

read_keys :
    (ks : List Text) (t : Text) → one_key.dump_keys ks ≡ ok t → one_key.parse_keys t ≡ some ks
read_keys [] t h = ground (arith, h)
read_keys (k ∷ []) t h = ground (arith, h)
read_keys (k ∷ j ∷ js) t h = cc

read_payload :
    (name raw t : Text)
    → one_key.dump_payload name raw ≡ ok t
    → one_key.parse_payload t ≡ some (name, some raw)
read_payload name raw t h = ground (arith, h, split_at-append name raw)

one_key-IsJson : IsJson one_key
one_key-IsJson = record { parse-keys = read_keys; parse-payload = read_payload }

abbrev app : Text
app = codes "app"

abbrev note : Text
note = length (codes "app_DelMemCache") ∷ (codes "app_DelMemCache" ++ 1 ∷ codes "a")

published : publish_message one_key (pub_del_mem_name app) (1 ∷ codes "a") ≡ ok note
unfolding publish_message pub_del_mem_name format_with_app_name
published = refl

abbrev tens : Params
tens = record {
  page = pos 1;
  page_count = pos 10;
  conditions = [];
  order_by = codes "id";
  asc = true;
  time_column = codes "created";
  time_between = [];
}

pages_cover_example :
    (k last start : ℕ) × (1 ≤ k)
    × (k ≤ last)
    × (pages 25 tens.page_count ≡ pos last)
    × (offset (record tens { page = pos k }) ≡ pos start)
    × (start ≤ 24)
    × (24 < start + 10)
pages_cover_example = pages_cover tens 10 25 24 refl (omega arith) (omega arith)
