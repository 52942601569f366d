-- ===== src/Go/Json/Lex.antt =====
-- The scanner of encoding/json inside a string and inside a number.
use Prim.Native.Char.{Char, code}
use devflow_pipeline.Prelude.{
  ℕ, zero, suc, String, Bool, true, false, ◌&&◌, ◌||◌, Option, none, some, ltb, leb, ◌==◌,
  if◌then◌else◌,
}

-- `stateInString`, `stateInStringEsc`, and `stateInStringEscU` and its three successors, by the digits
-- that are left after the next one.
pub data InString : Type 0 where
  plain escaped : InString
  digits : (more : ℕ) → InString

-- What a character inside a string does.
pub data Lexed : Type 0 where
  closes refused : Lexed
  goes : InString → Lexed

is_hex : ℕ → Bool
is_hex n = leb b'0' n && leb n b'9' || leb b'a' n && leb n b'f' || leb b'A' n && leb n b'F'

is_escape : ℕ → Bool
is_escape n =
    n == b'b' || n == b'f' || n == b'n' || n == b'r' || n == b't' || n == 92 || n == b'/' || n == 34

unfoldable pub lex : InString → ℕ → Lexed
unfolding is_hex is_escape
lex plain n =
    if n == 34
    then closes
    else if n == 92
    then goes escaped
    else if ltb n 32
    then refused
    else goes plain
lex escaped n = if is_escape n then goes plain else if n == b'u' then goes (digits 3) else refused
lex (digits zero) n = if is_hex n then goes plain else refused
lex (digits (suc more)) n = if is_hex n then goes (digits more) else refused

abbrev pub with_char : Char → Option (String × String) → Option (String × String)
with_char c none = none
with_char c (some (text, rest)) = some (String.◌∷◌ c text, rest)

-- A string from behind its opening quote: the text as it stands, and what follows the closing quote.
unfoldable pub scan_string : InString → String → Option (String × String)
unfolding lex
scan_string at String.[] = none
scan_string at (String.◌∷◌ c s) = elim (lex at (code c)) [
  | closes ↦ some ("", s)
  | refused ↦ none
  | goes next ↦ with_char c (scan_string next s)
]

-- `stateNeg`, `state0`, `state1`, `stateDot`, `stateDot0`, `stateE`, `stateESign`, `stateE0`, and the
-- state before a number.
pub data InNumber : Type 0 where
  start neg leading_zero integer dot fraction e e_sign exponent : InNumber

abbrev is_digit : ℕ → Bool
is_digit n = leb b'0' n && leb n b'9'

abbrev is_e : ℕ → Bool
is_e n = n == b'e' || n == b'E'

-- The next state inside a number, or `none` where the character is not of it.
unfoldable pub step : InNumber → ℕ → Option InNumber
step start n =
    if n == b'-'
    then some neg
    else if n == b'0'
    then some leading_zero
    else if is_digit n
    then some integer
    else none
step neg n = if n == b'0' then some leading_zero else if is_digit n then some integer else none
step leading_zero n = if n == b'.' then some dot else if is_e n then some e else none
step integer n =
    if is_digit n
    then some integer
    else if n == b'.'
    then some dot
    else if is_e n
    then some e
    else none
step dot n = if is_digit n then some fraction else none
step fraction n = if is_digit n then some fraction else if is_e n then some e else none
step e n =
    if n == b'+' || n == b'-' then some e_sign else if is_digit n then some exponent else none
step e_sign n = if is_digit n then some exponent else none
step exponent n = if is_digit n then some exponent else none

unfoldable pub is_final : InNumber → Bool
is_final leading_zero = true
is_final integer = true
is_final fraction = true
is_final exponent = true
is_final _ = false

-- A number: its text, and what follows.
unfoldable pub scan_number : InNumber → String → Option (String × String)
unfolding step is_final
scan_number at String.[] = if is_final at then some ("", "") else none
scan_number at (String.◌∷◌ c s) = elim (step at (code c)) [
  | none ↦ if is_final at then some ("", String.◌∷◌ c s) else none
  | some next ↦ with_char c (scan_number next s)
]
