-- ===== src/Aws/Dynamo.antt =====
-- The calls of a DynamoDB client that the aggregator makes, and what DynamoDB documents of them.
use devflow_pipeline.Prelude.{
  String, Bool, true, false, ◌≡◌, ◌⊎◌, Option, none, some, List, [], ◌∷◌, str_eq, eq_iff, arith,
  refl, if◌then◌else◌,
}
use devflow_pipeline.Go.Error.{GoError, errors_as, conditional_check_failed}
use devflow_pipeline.Go.Call.{Call, returned, Result}

-- `AttributeValueMemberS` and `AttributeValueMemberN`; a number travels as text.
pub data AttributeValue : Type 0 where
  member_s : String → AttributeValue
  member_n : String → AttributeValue

-- A map from attribute names, each of which stands once.
abbrev pub Item : Type 0
Item = List (String × AttributeValue)

unfoldable pub find : String → Item → Option AttributeValue
find name [] = none
find name ((n, v) ∷ item) = if str_eq n name then some v else find name item

unfoldable pub assign : String → AttributeValue → Item → Item
assign name value [] = (name, value) ∷ []
assign name value ((n, v) ∷ item) =
    if str_eq n name then (name, value) ∷ item else (n, v) ∷ assign name value item

pub find-assign :
    (name k : String) (v : AttributeValue) (item : Item)
    → find k (assign name v item) ≡ (if str_eq name k then some v else find k item)
unfolding find assign
find-assign name k v [] = refl
find-assign name k v ((n, w) ∷ item) =
    ground (arith, eq_iff name k, eq_iff n k, eq_iff n name, find-assign name k v item)

-- The clauses `ADD path :value, …` and `SET path = :value, …` of an update expression.
pub record UpdateExpression : Type 0 where
  pub add_clause : List (String × String)
  pub set_clause : List (String × String)

pub record DynamoApi (W : Type 0) : Type 0 where
  pub put_item : (table : String) → Item → (condition_expression : String) → Call W (Option GoError)
  pub update_item :
      (table : String) (key : String × String)
      → UpdateExpression
      → (expression_values : Item) → Call W (Option GoError)
  pub get_item : (table : String) (key : String × String) → Call W (Result Item)
  pub query :
      (table index key_condition : String)
      → (expression_values : Item) → Call W (Result (List Item))
  pub describe_table : (table : String) → Call W (Option GoError)

-- `errors.As` with the target `*types.ConditionalCheckFailedException`.
abbrev names_conditional_check : GoError → Bool
names_conditional_check conditional_check_failed = true
names_conditional_check _ = false

unfoldable pub is_conditional_check : GoError → Bool
unfolding errors_as
is_conditional_check e = errors_as names_conditional_check e

-- ADD on a number: an attribute that is missing counts as 0. `plus` is the sum of two number texts.
abbrev pub added :
    (String → String → String) → Option AttributeValue → Option AttributeValue → AttributeValue
added plus (some (member_n old)) (some (member_n value)) = member_n (plus old value)
added plus none (some (member_n value)) = member_n value
added plus (some v) _ = v
added plus none _ = member_s ""

abbrev pub set_to : Option AttributeValue → AttributeValue
set_to (some v) = v
set_to none = member_s ""

module _ (plus : String → String → String) (values : Item) where
  pub add_all : List (String × String) → Item → Item
  add_all [] item = item
  add_all ((path, name) ∷ clauses) item =
      add_all clauses (assign path (added plus (find path item) (find name values)) item)

  pub set_all : List (String × String) → Item → Item
  set_all [] item = item
  set_all ((path, name) ∷ clauses) item =
      set_all clauses (assign path (set_to (find name values)) item)

  -- The row that an update leaves, from the row before it; a row that is not there begins with its
  -- key attribute alone.
  unfoldable pub updated : UpdateExpression → (String × String) → Option Item → Item
  unfolding add_all set_all
  updated e (name, id) none = set_all e.set_clause (add_all e.add_clause ((name, member_s id) ∷ []))
  updated e key (some row) = set_all e.set_clause (add_all e.add_clause row)

-- What DynamoDB documents of writes, to tables with a hash key alone, of strings, whose rows do not
-- expire. `row w table id` is the row with that hash key.
pub record IsDocumented (W : Type 0) (api : DynamoApi W) (plus : String → String → String)
    (row : W → String → String → Option Item) : Type 0 where
  -- The name of the hash key of a table.
  pub hash_key : (table : String) → String
  -- A conditional put that succeeds has found no row and stores the item.
  pub put_stores :
      (w : W) (table id : String) (item : Item)
      → hash_key table ≡ "event_id"
      → find "event_id" item ≡ some (member_s id)
      → (api.put_item table item "attribute_not_exists(event_id)" w).0 ≡ returned none
      → (row w table id ≡ none)
        × (row (api.put_item table item "attribute_not_exists(event_id)" w).1 table id ≡ some item)
  -- A put on this condition never replaces a row, whatever it answers.
  pub put_keeps :
      (w : W) (table : String) (item : Item) (other id : String) (old : Item)
      → hash_key table ≡ "event_id"
      → row w other id ≡ some old
      → row (api.put_item table item "attribute_not_exists(event_id)" w).1 other id ≡ some old
  -- A put writes to its own table alone.
  pub put_frame :
      (w : W) (table : String) (item : Item) (other id : String)
      → str_eq other table ≡ false
      → row (api.put_item table item "attribute_not_exists(event_id)" w).1 other id ≡ row w other id
  -- An update that succeeds leaves the updated row.
  pub update_applies :
      (w : W) (table : String) (key : String × String) (e : UpdateExpression) (values : Item)
      → hash_key table ≡ key.0
      → (api.update_item table key e values w).0 ≡ returned none
      → row (api.update_item table key e values w).1 table key.1
        ≡ some (updated plus values e key (row w table key.1))
  -- An update, whatever it answers, changes no other row.
  pub update_frame :
      (w : W) (table : String) (key : String × String) (e : UpdateExpression) (values : Item)
      (other id : String)
      → (str_eq other table ≡ false) ⊎ (str_eq id key.1 ≡ false)
      → row (api.update_item table key e values w).1 other id ≡ row w other id
