-- ===== src/Go/Json/RoundTrip.antt =====
-- A printed object is parsed as it was.
use Prim.Native.Char.{Char, code}
use devflow_pipeline.Prelude.{
  ℕ, zero, suc, ◌≤◌, ◌<◌, String, true, false, ◌≡◌, refl, ◌⊎◌, inl, inr, some, [], ◌∷◌, All, length,
  arith,
}
use devflow_pipeline.Go.Json.{Value, null, nested, boolean, number, literal, Members, object}
use devflow_pipeline.Go.Json.Quote.{
  Written, itself, numbered, short, written, quote_char, quote_before,
}
use devflow_pipeline.Go.Json.Unquote.{unquote-quote}
use devflow_pipeline.Go.Json.Lex.{start, scan_number}
use devflow_pipeline.Go.Json.Parse.{
  ◌>>=◌, parse_value, parse_member, parse_members, parse_object, parse_document, skip_space, size,
}
use devflow_pipeline.Go.Json.Print.{
  before, print_value, print_member, print_more, print_members, print,
}
use devflow_pipeline.Go.Json.Strings.{IsText, scan_quoted}
use devflow_pipeline.Go.Json.Numbers.{IsNumber, IsStop, scan_number-IsNumber, first-IsNumber}

-- The values whose texts the scanner takes for one value.
abbrev pub IsPrinted : Value → Type 0
IsPrinted null = Unit
IsPrinted nested = ⊥
IsPrinted (boolean b) = Unit
IsPrinted (number text) = IsNumber text
IsPrinted (literal text) = IsText text

abbrev pub ArePrinted : Members → Type 0
ArePrinted members = All (λ (m : String × Value). IsPrinted m.1) members

-- What a parse of a printed value, in front of `rest`, does.
record Found (v : Value) (rest : String) : Type 0 where
  no_space : skip_space (print_value v rest) ≡ some (tt, print_value v rest)
  parsed : parse_value (print_value v rest) ≡ some (v, rest)

number-Found :
    (c : Char) (s rest : String)
    → ((code c ≡ 45) ⊎ ((48 ≤ code c) × (code c ≤ 57)))
    → scan_number start (String.◌∷◌ c (before s rest)) ≡ some (String.◌∷◌ c s, rest)
    → Found (number (String.◌∷◌ c s)) rest
unfolding skip_space print_value before parse_value
number-Found c s rest first h = record {
  no_space = ground (arith, first);
  parsed = ground (arith, first, h);
}

print_value-Found :
    (v : Value) (d : Char) (t : String) → IsPrinted v → IsStop (code d) → Found v (String.◌∷◌ d t)
unfolding skip_space print_value before parse_value
print_value-Found null d t h stop = record { no_space = refl; parsed = refl }
print_value-Found nested d t h stop = absurd h
print_value-Found (boolean true) d t h stop = record { no_space = refl; parsed = refl }
print_value-Found (boolean false) d t h stop = record { no_space = refl; parsed = refl }
print_value-Found (number text) d t h stop =
    let (c, s, same, first) = first-IsNumber text h in
    let scanned : scan_number start (before (String.◌∷◌ c s) (String.◌∷◌ d t))
        ≡ some (String.◌∷◌ c s, String.◌∷◌ d t) =
      rw same at (scan_number-IsNumber text d t h stop) in
    rw same (number-Found c s (String.◌∷◌ d t) first scanned)
print_value-Found (literal text) d t h stop = record {
  no_space = refl;
  parsed = rw (parse_value, ◌>>=◌, h (String.◌∷◌ d t)) refl;
}

stop_no_space :
    (d : Char) (t : String)
    → IsStop (code d)
    → skip_space (String.◌∷◌ d t) ≡ some (tt, String.◌∷◌ d t)
unfolding skip_space
stop_no_space d t h = ground (arith, h)

parse_member-print_member :
    (key : String) (v : Value) (d : Char) (t : String)
    → IsPrinted v
    → IsStop (code d)
    → parse_member (print_member key v (String.◌∷◌ d t)) ≡ some ((key, v), String.◌∷◌ d t)
unfolding parse_member print_member skip_space
parse_member-print_member key v d t h stop =
    let f = print_value-Found v d t h stop in
    rw
      (
        parse_member,
        ◌>>=◌,
        scan_quoted key (String.◌∷◌ ":" (print_value v (String.◌∷◌ d t))),
        f.no_space,
        f.parsed,
        stop_no_space d t stop,
        unquote-quote key,
      )
      refl

parse_members-print_member :
    (fuel : ℕ) (key : String) (v : Value) (members : Members) (rest : String)
    → IsPrinted v
    → ArePrinted members
    → length members < fuel
    → parse_members fuel (print_member key v (print_more members rest))
      ≡ some ((key, v) ∷ members, rest)
unfolding parse_members print_more skip_space
parse_members-print_member zero key v members rest h hs enough = absurd (omega arith)
parse_members-print_member (suc fuel) key v [] rest h hs enough =
    rw (parse_members, ◌>>=◌, parse_member-print_member key v "}" rest h (inr refl)) refl
parse_members-print_member (suc fuel) key v ((k, w) ∷ members) rest h hs enough =
    rw
      (
        parse_members,
        ◌>>=◌,
        parse_member-print_member key v "," (print_member k w (print_more members rest)) h
            (inl refl),
        parse_members-print_member fuel k w members rest hs.0 hs.1 (omega (arith, enough)),
      )
      refl

before-size : (s rest : String) → size rest ≤ size (before s rest)
unfolding before size
before-size String.[] rest = omega arith
before-size (String.◌∷◌ c s) rest = omega (arith, before-size s rest)

quote_char-size : (w : Written) (c : Char) (rest : String) → size rest ≤ size (quote_char w c rest)
unfolding quote_char size
quote_char-size itself c rest = omega arith
quote_char-size numbered c rest = omega arith
quote_char-size (short d) c rest = omega arith

quote_before-size : (s rest : String) → size rest ≤ size (quote_before s rest)
unfolding quote_before
quote_before-size String.[] rest = omega arith
quote_before-size (String.◌∷◌ c s) rest =
    omega
      (arith, quote_before-size s rest, quote_char-size (written (code c)) c (quote_before s rest))

print_value-size : (v : Value) (rest : String) → size rest ≤ size (print_value v rest)
unfolding print_value size
print_value-size null rest = before-size "null" rest
print_value-size nested rest = before-size "{}" rest
print_value-size (boolean true) rest = before-size "true" rest
print_value-size (boolean false) rest = before-size "false" rest
print_value-size (number text) rest = before-size text rest
print_value-size (literal text) rest = omega (arith, before-size text (String.◌∷◌ "\"" rest))

print_member-size :
    (key : String) (v : Value) (rest : String) → size rest < size (print_member key v rest)
unfolding print_member size
print_member-size key v rest = omega (
  arith,
  print_value-size v rest,
  quote_before-size key (String.◌∷◌ "\"" (String.◌∷◌ ":" (print_value v rest))),
)

print_more-size :
    (members : Members) (rest : String)
    → (length members < size (print_more members rest))
      × (size rest ≤ size (print_more members rest))
unfolding print_more size
print_more-size [] rest = omega arith
print_more-size ((key, v) ∷ members) rest =
    omega (arith, print_more-size members rest, print_member-size key v (print_more members rest))

pub print_members-size :
    (members : Members) (rest : String) → size rest ≤ size (print_members members rest)
unfolding print_members size
print_members-size [] rest = omega arith
print_members-size ((key, v) ∷ members) rest =
    omega (arith, print_member-size key v (print_more members rest), print_more-size members rest)

pub parse_object-print_members :
    (members : Members) (rest : String)
    → ArePrinted members
    → parse_object (print_members members rest) ≡ some (members, rest)
unfolding parse_object print_members print_member size skip_space
parse_object-print_members [] rest h = refl
parse_object-print_members ((key, v) ∷ members) rest h =
    parse_members-print_member (size (print_member key v (print_more members rest))) key v members
      rest h.0 h.1
      (omega
        (arith, print_member-size key v (print_more members rest), print_more-size members rest))

-- An object of printed values is parsed as it was, whatever follows it.
pub parse_document-print_members :
    (members : Members) (rest : String)
    → ArePrinted members
    → parse_document (String.◌∷◌ "{" (print_members members rest)) ≡ some (object members)
unfolding parse_document skip_space
parse_document-print_members members rest h = rw (parse_object-print_members members rest h) refl

pub parse_document-print :
    (members : Members)
    → ArePrinted members
    → parse_document (print members) ≡ some (object members)
unfolding print
parse_document-print members h = parse_document-print_members members "" h
