-- ===== src/Go/Json/Nested.antt =====
-- The scanner of encoding/json over an array or an object that no field takes: it is checked and
-- skipped.
use Prim.Native.Char.{code}
use devflow_pipeline.Prelude.{
  ℕ, String, Bool, true, false, ◌||◌, ◌≡◌, refl, Option, none, some, List, [], ◌∷◌, length, leb,
  ◌==◌, if◌then◌else◌,
}
use devflow_pipeline.Go.Json.Lex.{
  InString, plain, closes, refused, goes, lex, InNumber, start, step, is_final,
}

-- The open brackets, the innermost one first.
pub data Bracket : Type 0 where
  brace square : Bracket

-- `stateBeginValue`, `stateBeginValueOrEmpty`, `stateBeginStringOrEmpty`, `stateBeginString`, the colon
-- behind a key, `stateEndValue`, and those inside a string, a number and a word such as `true`.
pub data State : Type 0 where
  value value_or_empty key_or_empty key colon end_value : State
  in_string : (of_key : Bool) → InString → State
  in_number : InNumber → State
  in_word : (left : List ℕ) → State

abbrev pub is_space : ℕ → Bool
is_space n = n == 32 || n == 9 || n == 10 || n == 13

-- `maxNestingDepth`, less the object around
max_depth : ℕ
max_depth = 9999

opened : Bracket → State → List Bracket → Option (List Bracket × State)
unfolding max_depth
opened b next open_ones =
    if leb (length (b ∷ open_ones)) max_depth then some (b ∷ open_ones, next) else none

begin_value : ℕ → List Bracket → Option (List Bracket × State)
unfolding opened step
begin_value n open_ones =
    if is_space n
    then some (open_ones, value)
    else if n == b'{'
    then opened brace key_or_empty open_ones
    else if n == b'['
    then opened square value_or_empty open_ones
    else if n == 34
    then some (open_ones, in_string false plain)
    else if n == b't'
    then some (open_ones, in_word (b'r' ∷ b'u' ∷ b'e' ∷ []))
    else if n == b'f'
    then some (open_ones, in_word (b'a' ∷ b'l' ∷ b's' ∷ b'e' ∷ []))
    else if n == b'n'
    then some (open_ones, in_word (b'u' ∷ b'l' ∷ b'l' ∷ []))
    else elim (step start n) [ none ↦ none | some at ↦ some (open_ones, in_number at) ]

after_value : ℕ → List Bracket → Option (List Bracket × State)
after_value n [] = none
after_value n (brace ∷ outer) =
    if is_space n
    then some (brace ∷ outer, end_value)
    else if n == b','
    then some (brace ∷ outer, key)
    else if n == b'}'
    then some (outer, end_value)
    else none
after_value n (square ∷ outer) =
    if is_space n
    then some (square ∷ outer, end_value)
    else if n == b','
    then some (square ∷ outer, value)
    else if n == b']'
    then some (outer, end_value)
    else none

-- One character.
nest : List Bracket → State → ℕ → Option (List Bracket × State)
unfolding begin_value after_value lex step is_final
nest open_ones value n = begin_value n open_ones
nest open_ones value_or_empty n =
    if is_space n
    then some (open_ones, value_or_empty)
    else if n == b']'
    then after_value n open_ones
    else begin_value n open_ones
nest open_ones key_or_empty n =
    if is_space n
    then some (open_ones, key_or_empty)
    else if n == b'}'
    then after_value n open_ones
    else if n == 34
    then some (open_ones, in_string true plain)
    else none
nest open_ones key n =
    if is_space n
    then some (open_ones, key)
    else if n == 34
    then some (open_ones, in_string true plain)
    else none
nest open_ones colon n =
    if is_space n
    then some (open_ones, colon)
    else if n == b':'
    then some (open_ones, value)
    else none
nest open_ones end_value n = after_value n open_ones
nest open_ones (in_string of_key at) n = elim (lex at n) [
  | closes ↦ some (open_ones, if of_key then colon else end_value)
  | refused ↦ none
  | goes next ↦ some (open_ones, in_string of_key next)
]
nest open_ones (in_number at) n = elim (step at n) [
  | some next ↦ some (open_ones, in_number next)
  | none ↦ if is_final at then after_value n open_ones else none
]
nest open_ones (in_word []) n = after_value n open_ones
nest open_ones (in_word (m ∷ left)) n = if n == m then some (open_ones, in_word left) else none

-- What follows when all brackets are closed.
skip : List Bracket → State → String → Option String
unfolding nest
skip [] at s = some s
skip (b ∷ outer) at String.[] = none
skip (b ∷ outer) at (String.◌∷◌ c s) = elim (nest (b ∷ outer) at (code c)) [
  | none ↦ none
  | some (open_ones, next) ↦ skip open_ones next s
]

-- An object, and an array, from behind its opening bracket.
unfoldable pub skip_object : String → Option String
unfolding skip
skip_object s = skip (brace ∷ []) key_or_empty s

unfoldable pub skip_array : String → Option String
unfolding skip
skip_array s = skip (square ∷ []) value_or_empty s

nested_skipped : skip_object "\"a\" : [1, -2.5e3, {}, []], \"b\":{\"c\":null}} rest" ≡ some " rest"
unfolding skip_object
nested_skipped = refl

bad_refused : skip_array "1, 02]" ≡ none
unfolding skip_array
bad_refused = refl
