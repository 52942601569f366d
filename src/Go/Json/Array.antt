-- ===== src/Go/Json/Array.antt =====
-- The text of an array of objects, as encoding/json writes it, and a client that reads it.
use Prim.Native.Char.{code}
use devflow_pipeline.Prelude.{
  ℕ, zero, suc, ◌<◌, String, ◌≡◌, refl, none, some, List, [], ◌∷◌, All, length, arith, ◌==◌,
  if◌then◌else◌,
}
use devflow_pipeline.Go.Json.{Members}
use devflow_pipeline.Go.Json.Parse.{
  ◌>>=◌, Parser, return, skip_space, any_char, expect, size, parse_object,
}
use devflow_pipeline.Go.Json.Print.{print_members}
use devflow_pipeline.Go.Json.RoundTrip.{ArePrinted, parse_object-print_members, print_members-size}

-- The objects behind the first one.
unfoldable pub print_more_objects : List Members → String → String
print_more_objects [] rest = String.◌∷◌ "]" rest
print_more_objects (members ∷ more) rest =
    String.◌∷◌ "," (String.◌∷◌ "{" (print_members members (print_more_objects more rest)))

unfoldable pub print_objects : List Members → String → String
unfolding print_more_objects
print_objects [] rest = String.◌∷◌ "[" (String.◌∷◌ "]" rest)
print_objects (members ∷ more) rest =
    String.◌∷◌ "[" (String.◌∷◌ "{" (print_members members (print_more_objects more rest)))

-- Objects from the first brace to the closing bracket.
unfoldable pub parse_objects : ℕ → Parser (List Members)
unfolding expect any_char
parse_objects zero = λ s. none
parse_objects (suc fuel) = do
  _ ← expect b'{'
  members ← parse_object
  _ ← skip_space
  n ← any_char
  (if n == b']'
      then return (members ∷ [])
      else if n == b','
      then (do _ ← skip_space; more ← parse_objects fuel; return (members ∷ more))
      else λ s. none)

unfoldable pub parse_elements : Parser (List Members)
parse_elements String.[] = none
parse_elements (String.◌∷◌ c s) =
    let more = parse_objects (suc (size s)) (String.◌∷◌ c s) in
    if code c == b']' then some ([], s) else more

-- An array of objects at the front of a text.
unfoldable pub parse_array : Parser (List Members)
unfolding expect parse_elements
parse_array = do _ ← skip_space; _ ← expect b'['; _ ← skip_space; parse_elements

parse_objects-print :
    (fuel : ℕ) (members : Members) (more : List Members) (rest : String)
    → ArePrinted members
    → All ArePrinted more
    → length more < fuel
    → parse_objects fuel (String.◌∷◌ "{" (print_members members (print_more_objects more rest)))
      ≡ some (members ∷ more, rest)
unfolding parse_objects print_more_objects skip_space
parse_objects-print zero members more rest h hs enough = absurd (omega arith)
parse_objects-print (suc fuel) members [] rest h hs enough =
    rw (parse_objects, ◌>>=◌, parse_object-print_members members (String.◌∷◌ "]" rest) h) refl
parse_objects-print (suc fuel) members (next ∷ more) rest h hs enough =
    rw
      (
        parse_objects,
        ◌>>=◌,
        parse_object-print_members members (print_more_objects (next ∷ more) rest) h,
        parse_objects-print fuel next more rest hs.0 hs.1 (omega (arith, enough)),
      )
      refl

print_more_objects-size :
    (more : List Members) (rest : String) → length more < size (print_more_objects more rest)
unfolding print_more_objects size
print_more_objects-size [] rest = omega arith
print_more_objects-size (members ∷ more) rest = omega (
  arith,
  print_more_objects-size more rest,
  print_members-size members (print_more_objects more rest),
)

-- An array of objects of printed values is read as it was.
pub parse_array-print_objects :
    (all : List Members) (rest : String)
    → All ArePrinted all
    → parse_array (print_objects all rest) ≡ some (all, rest)
unfolding parse_array print_objects skip_space size
parse_array-print_objects [] rest h = refl
parse_array-print_objects (members ∷ more) rest h =
    parse_objects-print (suc (size (print_members members (print_more_objects more rest)))) members
      more rest h.0 h.1
      (omega (
        arith,
        print_more_objects-size more rest,
        print_members-size members (print_more_objects more rest),
      ))
