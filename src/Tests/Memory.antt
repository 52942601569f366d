-- ===== src/Tests/Memory.antt =====
-- A DynamoDB in memory: a function from tables and keys to rows.
use mathlib.Core.Path.{ap₂, subst}
use devflow_pipeline.Prelude.{
  String, true, false, ◌&&◌, ◌≡◌, ◌⊎◌, inl, inr, refl, Option, none, some, [], ◌∷◌, arith, str_eq,
  eq_iff, ℤ, pos, ◌+ℤ◌, if◌then◌else◌, Bool-cases,
}
use devflow_pipeline.Go.Error.{GoError, conditional_check_failed}
use devflow_pipeline.Go.Call.{Call, returned, Result, ok, return}
use devflow_pipeline.Go.Decimal.{itoa, read_integer, read_integer-itoa}
use devflow_pipeline.Go.Text.{and-left, and-right}
use devflow_pipeline.Aws.Dynamo.{
  Item, AttributeValue, member_s, find, updated, DynamoApi, IsDocumented,
}
use devflow_pipeline.Aggregator.Domain.{EventRecord}
use devflow_pipeline.Aggregator.Repository.Defs.{DynamoDb}
use devflow_pipeline.Aggregator.Repository.Contract.{Assumptions}
use devflow_pipeline.Tests.Fixtures.{integers, at_second}

abbrev pub Tables : Type 0
Tables = String → String → Option Item

abbrev number : Option ℤ → ℤ
number none = pos 0
number (some z) = z

pub plus : String → String → String
plus s t = itoa (number (read_integer s) +ℤ number (read_integer t))

pub plus-itoa : (m n : ℤ) → plus (itoa m) (itoa n) ≡ itoa (m +ℤ n)
unfolding plus
plus-itoa m n = rw (read_integer-itoa m, read_integer-itoa n)

abbrev text : Option AttributeValue → String
text (some (member_s s)) = s
text _ = ""

abbrev write : String → String → Item → Tables → Tables
write table id item w = λ t i. if str_eq t table && str_eq i id then some item else w t i

abbrev store : String → String → Item → Option Item → Call Tables (Option GoError)
store table id item none w = (returned none, write table id item w)
store table id item (some old) w = (returned (some conditional_check_failed), w)

abbrev pub memory : DynamoApi Tables
memory = record {
  put_item = λ table item condition w.
      let id = text (find "event_id" item) in store table id item (w table id) w;
  update_item = λ table key e values w.
      (returned none, write table key.1 (updated plus values e key (w table key.1)) w);
  get_item =
      λ table key w. (returned (ok (elim (w table key.1) [ none ↦ [] | some item ↦ item ])), w);
  query = λ table index condition values w. (returned (ok []), w);
  describe_table = λ table w. (returned none, w);
}

abbrev pub rows : Tables → String → String → Option Item
rows w = w

store_stores :
    (table id : String) (item : Item) (o : Option Item) (w : Tables)
    → w table id ≡ o
    → (store table id item o w).0 ≡ returned none
    → (w table id ≡ none) × ((store table id item o w).1 table id ≡ some item)
store_stores table id item none w q h = ground (arith, q, eq_iff table table, eq_iff id id)
store_stores table id item (some old) w q h = cc

same_row : (t o k j : String) (v : Tables) → (str_eq t o && str_eq k j) ≡ true → v t k ≡ v o j
same_row t o k j v e =
    ap₂ v ((eq_iff t o).0 (and-left (str_eq t o) (str_eq k j) e))
      ((eq_iff k j).0 (and-right (str_eq t o) (str_eq k j) e))

store_keeps :
    (table id : String) (item : Item) (o : Option Item) (w : Tables) (other i : String) (old : Item)
    → w table id ≡ o
    → w other i ≡ some old
    → (store table id item o w).1 other i ≡ some old
store_keeps table id item none w other i old q h =
    elim (Bool-cases (str_eq other table && str_eq i id)) [
      | inl both ↦ ground (arith, same_row other table i id w both, q, h)
      | inr other_row ↦ rw other_row h
    ]
store_keeps table id item (some found) w other i old q h = h

store_frame :
    (table id : String) (item : Item) (o : Option Item) (w : Tables) (other i : String)
    → str_eq other table ≡ false
    → (store table id item o w).1 other i ≡ w other i
store_frame table id item none w other i h = ground (arith, eq_iff other table, eq_iff table other)
store_frame table id item (some old) w other i h = refl

text_of_key : (o : Option AttributeValue) (id : String) → o ≡ some (member_s id) → text o ≡ id
text_of_key o id h = rw h

abbrev key_of : Item → String
key_of item = text (find "event_id" item)

put_at_key :
    (w : Tables) (table id : String) (item : Item)
    → key_of item ≡ id
    → (store table (key_of item) item (w table (key_of item)) w).0 ≡ returned none
    → (w table id ≡ none)
      × ((store table (key_of item) item (w table (key_of item)) w).1 table id ≡ some item)
put_at_key w table id item e h =
    subst
      (λ k.
        (w table k ≡ none)
        × ((store table (key_of item) item (w table (key_of item)) w).1 table k ≡ some item))
      e (store_stores table (key_of item) item (w table (key_of item)) w refl h)

write_frame :
    (table id : String) (item : Item) (w : Tables) (other i : String)
    → (str_eq other table ≡ false) ⊎ (str_eq i id ≡ false)
    → write table id item w other i ≡ w other i
write_frame table id item w other i h =
    ground (arith, eq_iff other table, eq_iff table other, eq_iff i id, eq_iff id i)

write_self :
    (table id : String) (item : Item) (w : Tables) → write table id item w table id ≡ some item
write_self table id item w = ground (arith, eq_iff table table, eq_iff id id)

pub memory-IsDocumented : IsDocumented Tables memory plus rows
memory-IsDocumented = record {
  hash_key = λ table. if str_eq table "events" then "event_id" else "developer_id";
  put_stores = λ w table id item keyed named h.
      put_at_key w table id item (text_of_key (find "event_id" item) id named) h;
  put_keeps = λ w table item other id old keyed h.
      store_keeps table (key_of item) item (w table (key_of item)) w other id old refl h;
  put_frame = λ w table item other id differ.
      store_frame table (key_of item) item (w table (key_of item)) w other id differ;
  update_applies = λ w table key e values keyed h. write_self table key.1 _ w;
  update_frame =
      λ w table key e values other id differ. write_frame table key.1 _ w other id differ;
}

-- A row for an event, with its key and its developer.
abbrev pub marshal_map : EventRecord integers → Result Item
marshal_map rec =
    ok (("event_id", member_s rec.event_id) ∷ ("developer_id", member_s rec.developer_id) ∷ [])

abbrev pub repository : DynamoDb integers Tables
repository = record {
  api = memory;
  events_table = "events";
  summary_table = "developer_summary";
  gsi_name = "developer_id-index";
  clock = return (at_second 5000);
}

ok-injective : (i j : Item) → ok i ≡ ok j → i ≡ j
ok-injective i j h = ground (arith, h)

find-marshalled :
    (rec : EventRecord integers) (item : Item)
    → marshal_map rec ≡ ok item
    → find "event_id" item ≡ some (member_s rec.event_id)
unfolding find
find-marshalled rec item h = rw (← ok-injective _ item h)

pub memory-Assumptions : Assumptions integers Tables marshal_map repository plus rows
unfolding memory-IsDocumented
memory-Assumptions = record {
  documented = memory-IsDocumented;
  events_key = refl;
  summary_key = refl;
  marshalled = find-marshalled;
  clock_keeps = λ w table id. refl;
  two_tables = refl;
}
