-- ===== src/Go/Json/Parse.antt =====
-- The first document of a text, as `json.Decoder.Decode` finds it: what follows it is left unread.
use Prim.Native.Char.{code}
use devflow_pipeline.Prelude.{
  ℕ, zero, suc, String, true, false, ◌≡◌, refl, Option, none, some, List, [], ◌∷◌, ◌==◌,
  if◌then◌else◌,
}
use devflow_pipeline.Go.Json.{
  Value, null, nested, boolean, number, literal, Members, Document, object, other,
}
use devflow_pipeline.Go.Json.Lex.{plain, scan_string, start, scan_number}
use devflow_pipeline.Go.Json.Nested.{is_space, skip_object, skip_array}
use devflow_pipeline.Go.Json.Unquote.{unquote}

-- A parser of something at the front of a text; `none` is an error.
abbrev pub Parser : Type 0 → Type 0
Parser A = String → Option (A × String)

infixl 5 ◌>>=◌
abbrev pub ◌>>=◌ : {A B : Type 0} → Parser A → (A → Parser B) → Parser B
◌>>=◌ p f s = elim (p s) [ none ↦ none | some (a, rest) ↦ f a rest ]

abbrev pub return : {A : Type 0} → A → Parser A
return a s = some (a, s)

unfoldable pub skip_space : Parser (Unit {0})
skip_space String.[] = some (tt, "")
skip_space (String.◌∷◌ c s) =
    let rest = skip_space s in if is_space (code c) then rest else some (tt, String.◌∷◌ c s)

-- One character, by its number.
unfoldable pub any_char : Parser ℕ
any_char String.[] = none
any_char (String.◌∷◌ c s) = some (code c, s)

unfoldable pub expect : ℕ → Parser (Unit {0})
expect n String.[] = none
expect n (String.◌∷◌ c s) = if code c == n then some (tt, s) else none

unfoldable pub skipped : (String → Option String) → Parser Value
skipped skip s = elim (skip s) [ none ↦ none | some rest ↦ some (nested, rest) ]

word : List ℕ → Value → Parser Value
unfolding expect
word [] v = return v
word (n ∷ left) v = do _ ← expect n; word left v

-- A value from its first character on.
unfoldable pub parse_value : Parser Value
unfolding word
parse_value String.[] = none
parse_value (String.◌∷◌ c s) =
    let n = code c in
    if n == 34
    then (do text ← scan_string plain; return (literal text)) s
    else if n == b'{'
    then skipped skip_object s
    else if n == b'['
    then skipped skip_array s
    else if n == b't'
    then word (b'r' ∷ b'u' ∷ b'e' ∷ []) (boolean true) s
    else if n == b'f'
    then word (b'a' ∷ b'l' ∷ b's' ∷ b'e' ∷ []) (boolean false) s
    else if n == b'n'
    then word (b'u' ∷ b'l' ∷ b'l' ∷ []) null s
    else (do text ← scan_number start; return (number text)) (String.◌∷◌ c s)

-- A member: its key, the colon and the value, with the spaces around them.
unfoldable pub parse_member : Parser (String × Value)
unfolding expect
parse_member = do
  _ ← expect 34
  key ← scan_string plain
  _ ← skip_space
  _ ← expect b':'
  _ ← skip_space
  value ← parse_value
  _ ← skip_space
  return (unquote key, value)

-- What follows a member: the closing brace, or a comma and the next one.
unfoldable pub parse_members : ℕ → Parser Members
unfolding any_char
parse_members zero = λ s. none
parse_members (suc fuel) = do
  member ← parse_member
  n ← any_char
  (if n == b'}'
      then return (member ∷ [])
      else if n == b','
      then (do _ ← skip_space; members ← parse_members fuel; return (member ∷ members))
      else λ s. none)

-- More fuel than characters.
unfoldable pub size : String → ℕ
size String.[] = 0
size (String.◌∷◌ c s) = suc (size s)

unfoldable pub parse_object : Parser Members
parse_object s = elim (skip_space s) [
  | none ↦ none
  | some (_, String.[]) ↦ none
  | some (_, String.◌∷◌ c rest) ↦
      if code c == b'}'
      then some ([], rest)
      else parse_members (suc (size rest)) (String.◌∷◌ c rest)
]

-- The first value of a text.
unfoldable pub parse_document : String → Option Document
parse_document s = elim (skip_space s) [
  | none ↦ none
  | some (_, String.[]) ↦ none
  | some (_, String.◌∷◌ c rest) ↦
      if code c == b'{'
      then elim (parse_object rest) [ none ↦ none | some (members, _) ↦ some (object members) ]
      else elim (parse_value (String.◌∷◌ c rest)) [
        | none ↦ none
        | some (value, _) ↦ some (other value)
      ]
]

read_spaced :
    parse_document " { \"a\" : \"x\\n\", \"b\":[1] ,\"c\":-1.5e2 } trailing"
    ≡ some (object (("a", literal "x\\n") ∷ ("b", nested) ∷ ("c", number "-1.5e2") ∷ []))
unfolding parse_document parse_object parse_members parse_member parse_value skip_space scan_string
    scan_number skipped skip_object skip_array unquote size
read_spaced = refl
