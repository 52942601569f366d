-- ===== src/Go/Json.antt =====
-- encoding/json on the flat objects of the two queues: the values of a document, and the binding of a
-- document to the fields of a struct, by a decoder that allows no unknown field.
pub mod Quote
pub mod Unquote
pub mod Lex
pub mod Nested
pub mod Parse
pub mod Print
pub mod Strings
pub mod Numbers
pub mod RoundTrip
pub mod Array
use Prim.Native.Char.{code}
use devflow_pipeline.Prelude.{
  ℕ, ◌-◌, String, Bool, true, false, ◌&&◌, Option, none, some, List, [], ◌∷◌, ℤ, leb, ◌==◌,
  if◌then◌else◌,
}
use devflow_pipeline.Go.Call.{Result}
use devflow_pipeline.Go.Decimal.{atoi}
use devflow_pipeline.Go.Float.{Float64}
use devflow_pipeline.Go.Time.{Time}
use devflow_pipeline.Go.Json.Unquote.{unquote}

-- A value of a member. A string is kept as it stands between its quotes, a number as it stands, and an
-- array or an object, which no field of the services' structs takes, as `nested`.
pub data Value : Type 0 where
  null nested : Value
  boolean : Bool → Value
  number literal : String → Value

abbrev pub Members : Type 0
Members = List (String × Value)

-- The first value of a text.
pub data Document : Type 0 where
  object : Members → Document
  other : Value → Document

-- The digits of a `float64`, and what a text is read as as a `float64` and between quotes as a time.
pub record Scalars (fl : Float64) : Type 0 where
  pub format_float : fl.Float → Result String
  pub parse_float : String → Option fl.Float
  pub parse_time : String → Option Time

-- `foldRune` where the outcome may be an ASCII letter: the two other characters that fold to one are
-- ſ and the Kelvin sign.
fold_code : ℕ → ℕ
fold_code c =
    if leb 97 c && leb c 122
    then c - 32
    else if c == 0x17f
    then 83
    else if c == 0x212a
    then 75
    else c

-- The match of a member's key with the name of a field, which is in ASCII: case is ignored.
unfoldable pub same_name : String → String → Bool
unfolding fold_code
same_name String.[] String.[] = true
same_name String.[] (String.◌∷◌ d t) = false
same_name (String.◌∷◌ c s) String.[] = false
same_name (String.◌∷◌ c s) (String.◌∷◌ d t) =
    fold_code (code c) == fold_code (code d) && same_name s t

-- A value into a field of a kind: null leaves the field as it is, `none` is an error.
unfoldable pub set_string : Value → String → Option String
set_string null old = some old
set_string (literal text) old = some (unquote text)
set_string nested old = none
set_string (boolean b) old = none
set_string (number text) old = none

unfoldable pub set_int : Value → ℤ → Option ℤ
set_int null old = some old
set_int (number text) old = atoi text
set_int nested old = none
set_int (boolean b) old = none
set_int (literal text) old = none

module _ (fl : Float64) (sc : Scalars fl) where
  open fl use {Float}

  unfoldable pub set_float : Value → Float → Option Float
  set_float null old = some old
  set_float (number text) old = sc.parse_float text
  set_float nested old = none
  set_float (boolean b) old = none
  set_float (literal text) old = none

  -- `Time.UnmarshalJSON`
  unfoldable pub set_time : Value → Time → Option Time
  set_time null old = some old
  set_time (literal text) old = sc.parse_time text
  set_time nested old = none
  set_time (boolean b) old = none
  set_time (number text) old = none

-- The members into a struct, in their order. The decoder goes on after some errors, and returns one of
-- them in the end, so that the struct is not used.
unfoldable pub bind : {E : Type 0} → (String → Value → E → Option E) → Members → E → Option E
bind set [] e = some e
bind set ((key, value) ∷ members) e = elim (set key value e) [
  | none ↦ none
  | some e' ↦ bind set members e'
]

-- `Decode` into a struct that starts as `zero`. The document `null` changes nothing.
unfoldable pub decode : {E : Type 0} → (String → Value → E → Option E) → E → Document → Option E
unfolding bind
decode set zero (object members) = bind set members zero
decode set zero (other null) = some zero
decode set zero (other nested) = none
decode set zero (other (boolean b)) = none
decode set zero (other (number text)) = none
decode set zero (other (literal text)) = none
