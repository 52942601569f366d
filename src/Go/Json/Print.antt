-- ===== src/Go/Json/Print.antt =====
-- The text that `json.Marshal` writes of an object.
use devflow_pipeline.Prelude.{String, true, false, [], ◌∷◌}
use devflow_pipeline.Go.Json.{Value, null, nested, boolean, number, literal, Members}
use devflow_pipeline.Go.Json.Quote.{quote_before}

unfoldable pub before : String → String → String
before String.[] rest = rest
before (String.◌∷◌ c s) rest = String.◌∷◌ c (before s rest)

-- A value; those of the structs are no arrays and no objects.
unfoldable pub print_value : Value → String → String
unfolding before
print_value null rest = before "null" rest
print_value nested rest = before "{}" rest
print_value (boolean true) rest = before "true" rest
print_value (boolean false) rest = before "false" rest
print_value (number text) rest = before text rest
print_value (literal text) rest = String.◌∷◌ "\"" (before text (String.◌∷◌ "\"" rest))

unfoldable pub print_member : String → Value → String → String
unfolding print_value quote_before
print_member key v rest =
    String.◌∷◌ "\"" (quote_before key (String.◌∷◌ "\"" (String.◌∷◌ ":" (print_value v rest))))

-- The members behind the first one.
unfoldable pub print_more : Members → String → String
unfolding print_member
print_more [] rest = String.◌∷◌ "}" rest
print_more ((key, v) ∷ members) rest = String.◌∷◌ "," (print_member key v (print_more members rest))

unfoldable pub print_members : Members → String → String
unfolding print_member print_more
print_members [] rest = String.◌∷◌ "}" rest
print_members ((key, v) ∷ members) rest = print_member key v (print_more members rest)

unfoldable pub print : Members → String
unfolding print_members
print members = String.◌∷◌ "{" (print_members members "")
