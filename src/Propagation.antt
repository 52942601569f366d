-- ===== src/Propagation.antt =====
-- services/processor/internal/infra/queue/propagation.go and its copy in services/aggregator:
-- `sqsAttrCarrier`, the message attributes as a carrier of trace headers.
use devflow_pipeline.Prelude.{
  String, ◌≡◌, refl, Option, none, some, List, [], ◌∷◌, map, str_eq, eq_iff, arith, if◌then◌else◌,
}

-- `types.MessageAttributeValue`: both fields are pointers.
pub record AttributeValue : Type 0 where
  pub data_type : Option String
  pub string_value : Option String

-- A map in the order in which its keys came in; `none` is the nil map.
abbrev pub Attributes : Type 0
Attributes = Option (List (String × AttributeValue))

find : String → List (String × AttributeValue) → Option AttributeValue
find key [] = none
find key ((k, v) ∷ attrs) = if str_eq k key then some v else find key attrs

assign : String → AttributeValue → List (String × AttributeValue) → List (String × AttributeValue)
assign key value [] = (key, value) ∷ []
assign key value ((k, v) ∷ attrs) =
    if str_eq k key then (k, value) ∷ attrs else (k, v) ∷ assign key value attrs

text_of : Option AttributeValue → String
text_of none = ""
text_of (some v) = elim v.string_value [ none ↦ "" | some text ↦ text ]

-- `sqsAttrCarrier.Get`
unfoldable pub get : Attributes → String → String
unfolding find text_of
get none key = ""
get (some attrs) key = text_of (find key attrs)

-- `sqsAttrCarrier.Set`
unfoldable pub set : Attributes → String → String → Attributes
unfolding assign
set none key value = none
set (some attrs) key value =
    some (assign key (record { data_type = some "String"; string_value = some value }) attrs)

-- `sqsAttrCarrier.Keys`
unfoldable pub keys : Attributes → List String
keys none = []
keys (some attrs) = map (λ (k, _). k) attrs

find-assign :
    (key k : String) (v : AttributeValue) (attrs : List (String × AttributeValue))
    → find k (assign key v attrs) ≡ (if str_eq key k then some v else find k attrs)
unfolding find assign
find-assign key k v [] = refl
find-assign key k v ((j, w) ∷ attrs) =
    ground (arith, eq_iff key k, eq_iff j k, eq_iff j key, find-assign key k v attrs)

-- On a map that is not nil, a header that was set is read back and every other header is as before; on
-- the nil map nothing is set, and every header is read as the empty text.
pub get-set :
    (attrs : Attributes) (key k value : String)
    → get (set attrs key value) k ≡ elim attrs [
      | none ↦ ""
      | some headers ↦ if str_eq key k then value else get (some headers) k
    ]
unfolding get set
get-set none key k value = refl
get-set (some headers) key k value = rw find-assign (ground arith)
