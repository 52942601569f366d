-- ===== src/Go/Decimal.antt =====
-- Decimal text of integers: `fmt.Sprintf("%d", n)` and `strconv.Atoi`.
use Prim.Native.Char.{Char, code}
use native.Mathlib.Nat.{zero-mul, zero-add}
use devflow_pipeline.Prelude.{
  ℕ, zero, suc, ◌+◌, ◌-◌, ◌*◌, ◌/◌, ◌%◌, ◌^◌, ◌≤◌, ◌<◌, String, Bool, true, ◌&&◌, ◌≡◌, refl, ◌∙◌,
  ap, Option, none, some, arith, ltb, leb, ◌==◌, ℤ, pos, negsuc, sub_ℕ, pos_part, neg_part,
  if◌then◌else◌, Bool-cases, inl, inr,
}

unfoldable pub digit : ℕ → Char
digit zero = "0"
digit (suc zero) = "1"
digit (suc (suc zero)) = "2"
digit (suc (suc (suc zero))) = "3"
digit (suc (suc (suc (suc zero)))) = "4"
digit (suc (suc (suc (suc (suc zero))))) = "5"
digit (suc (suc (suc (suc (suc (suc zero)))))) = "6"
digit (suc (suc (suc (suc (suc (suc (suc zero))))))) = "7"
digit (suc (suc (suc (suc (suc (suc (suc (suc zero)))))))) = "8"
digit _ = "9"

-- The digits of `n` before `rest`, with fuel above `n`.
unfoldable pub digits : ℕ → ℕ → String → String
digits zero n rest = rest
digits (suc fuel) n rest =
    let more = digits fuel (n / 10) (String.◌∷◌ (digit (n % 10)) rest) in
    if ltb n 10 then String.◌∷◌ (digit n) rest else more

unfoldable pub natural_text : ℕ → String
natural_text n = digits (suc n) n ""

-- `itoa` of services/aggregator/internal/infra/repository/dynamodb.go.
unfoldable pub itoa : ℤ → String
unfolding natural_text digits digit
itoa (pos n) = natural_text n
itoa (negsuc n) = String.◌∷◌ "-" (natural_text (suc n))

is_digit : Char → Bool
is_digit c = leb 48 (code c) && leb (code c) 57

-- Decimal digits read after the number `acc`.
read_digits : ℕ → String → Option ℕ
read_digits acc String.[] = some acc
read_digits acc (String.◌∷◌ c s) =
    let rest = read_digits (acc * 10 + (code c - 48)) s in if is_digit c then rest else none

-- One digit or more.
read_natural : String → Option ℕ
read_natural String.[] = none
read_natural (String.◌∷◌ c s) = read_digits 0 (String.◌∷◌ c s)

positive : Option ℕ → Option ℤ
positive none = none
positive (some n) = some (pos n)

negative : Option ℕ → Option ℤ
negative none = none
negative (some n) = some (sub_ℕ 0 n)

-- An optional sign and decimal digits, of any size.
unfoldable pub read_integer : String → Option ℤ
unfolding read_natural read_digits is_digit positive negative
read_integer String.[] = none
read_integer (String.◌∷◌ c s) =
    if code c == 45
    then negative (read_natural s)
    else if code c == 43
    then positive (read_natural s)
    else positive (read_natural (String.◌∷◌ c s))

within_int64 : Option ℤ → Option ℤ
within_int64 none = none
within_int64 (some z) =
    if leb (neg_part z) (2 ^ 63) && ltb (pos_part z) (2 ^ 63) then some z else none

-- `strconv.Atoi` where `int` has 64 bits; `none` is its error.
unfoldable pub atoi : String → Option ℤ
unfolding read_integer within_int64
atoi s = within_int64 (read_integer s)

pub code-digit : (d : ℕ) → d < 10 → code (digit d) ≡ 48 + d
unfolding digit
code-digit zero h = refl
code-digit (suc zero) h = refl
code-digit (suc (suc zero)) h = refl
code-digit (suc (suc (suc zero))) h = refl
code-digit (suc (suc (suc (suc zero)))) h = refl
code-digit (suc (suc (suc (suc (suc zero))))) h = refl
code-digit (suc (suc (suc (suc (suc (suc zero)))))) h = refl
code-digit (suc (suc (suc (suc (suc (suc (suc zero))))))) h = refl
code-digit (suc (suc (suc (suc (suc (suc (suc (suc zero)))))))) h = refl
code-digit (suc (suc (suc (suc (suc (suc (suc (suc (suc zero))))))))) h = refl
code-digit (suc (suc (suc (suc (suc (suc (suc (suc (suc (suc d)))))))))) h = absurd (omega arith)

is_digit-digit : (d : ℕ) → d < 10 → is_digit (digit d) ≡ true
unfolding is_digit
is_digit-digit d h = rw (code-digit d h) (ground arith)

read_digits-digit :
    (acc d : ℕ) (rest : String)
    → d < 10
    → read_digits acc (String.◌∷◌ (digit d) rest) ≡ read_digits (acc * 10 + d) rest
unfolding read_digits
read_digits-digit acc d rest h =
    rw (is_digit-digit d h, code-digit d h)
      (ap (λ (m : ℕ). read_digits m rest)
        (let e : acc * 10 + (48 + d - 48) ≡ acc * 10 + d = omega arith in e))

read_digits-digits :
    (fuel n : ℕ) (rest : String)
    → n < fuel
    → read_digits 0 (digits fuel n rest) ≡ read_digits n rest
unfolding digits
read_digits-digits zero n rest h = absurd (omega arith)
read_digits-digits (suc fuel) n rest h = elim (Bool-cases (ltb n 10)) [
  | inl small ↦ rw small (read_digits-digit 0 n rest (ground arith) ∙ rw zero-mul (rw zero-add))
  | inr large ↦ rw large (
      read_digits-digits fuel (n / 10) _ (ground arith)
      ∙ read_digits-digit (n / 10) (n % 10) rest (omega arith)
      ∙ ap (λ (m : ℕ). read_digits m rest) (let e : n / 10 * 10 + n % 10 ≡ n = omega arith in e))
]

StartsWithDigit : String → Type 0
StartsWithDigit s = (d : ℕ) × (t : String) × (d < 10) × (s ≡ String.◌∷◌ (digit d) t)

digits-StartsWithDigit :
    (fuel n : ℕ) (rest : String) → n < fuel → StartsWithDigit (digits fuel n rest)
unfolding digits StartsWithDigit
digits-StartsWithDigit zero n rest h = absurd (omega arith)
digits-StartsWithDigit (suc fuel) n rest h = elim (Bool-cases (ltb n 10)) [
  | inl small ↦ (n, rest, ground arith, rw small)
  | inr large ↦ rw large (digits-StartsWithDigit fuel (n / 10) _ (ground arith))
]

read_natural-natural_text : (n : ℕ) → read_natural (natural_text n) ≡ some n
unfolding read_natural read_digits natural_text StartsWithDigit
read_natural-natural_text n =
    let (d, t, small, e) = digits-StartsWithDigit (suc n) n "" (omega arith) in
    rw e (rw e at (read_digits-digits (suc n) n "" (omega arith)))

natural_text-StartsWithDigit : (n : ℕ) → StartsWithDigit (natural_text n)
unfolding natural_text
natural_text-StartsWithDigit n = digits-StartsWithDigit (suc n) n "" (omega arith)

read_unsigned : (s : String) → StartsWithDigit s → read_integer s ≡ positive (read_natural s)
unfolding read_integer StartsWithDigit
read_unsigned s h = let (d, t, small, e) = h in rw (e, code-digit d small) (ground arith)

pub read_integer-itoa : (z : ℤ) → read_integer (itoa z) ≡ some z
unfolding itoa positive
read_integer-itoa (pos n) =
    read_unsigned (natural_text n) (natural_text-StartsWithDigit n) ∙ rw read_natural-natural_text
read_integer-itoa (negsuc n) = unfold read_integer in rw read_natural-natural_text (ground arith)

-- Atoi reads back every int64 that `%d` writes.
pub atoi-itoa : (z : ℤ) → neg_part z ≤ 2 ^ 63 → pos_part z < 2 ^ 63 → atoi (itoa z) ≡ some z
unfolding atoi
atoi-itoa z lo hi = rw read_integer-itoa (ground arith)
