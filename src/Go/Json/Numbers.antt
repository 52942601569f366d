-- ===== src/Go/Json/Numbers.antt =====
-- The numbers that encoding/json writes, in its scanner.
use Prim.Native.Char.{Char, code}
use devflow_pipeline.Prelude.{
  ℕ, zero, suc, ◌+◌, ◌%◌, ◌/◌, ◌≤◌, ◌<◌, String, true, ◌≡◌, refl, sym, ◌∙◌, ◌⊎◌, inl, inr, Option,
  none, some, ltb, arith, Bool-cases, ℤ, pos, negsuc,
}
use devflow_pipeline.Go.Decimal.{digit, digits, natural_text, itoa, code-digit}
use devflow_pipeline.Go.Json.Lex.{
  InNumber, start, neg, leading_zero, integer, dot, fraction, e, e_sign, exponent, step, is_final,
  scan_number,
}
use devflow_pipeline.Go.Json.Print.{before}

-- The state that a number ends in.
unfoldable pub number_end : InNumber → String → Option InNumber
number_end at String.[] = some at
number_end at (String.◌∷◌ c s) = elim (step at (code c)) [
  | none ↦ none
  | some next ↦ number_end next s
]

pub record IsNumber (text : String) : Type 0 where
  pub last : InNumber
  pub ends : number_end start text ≡ some last
  pub final : is_final last ≡ true

-- Behind a number stands a comma or a closing brace.
abbrev pub IsStop : ℕ → Type 0
IsStop n = (n ≡ 44) ⊎ (n ≡ 125)

stops : (at : InNumber) (n : ℕ) → IsStop n → step at n ≡ none
unfolding step
stops start n h = ground arith
stops neg n h = ground arith
stops leading_zero n h = ground arith
stops integer n h = ground arith
stops dot n h = ground arith
stops fraction n h = ground arith
stops e n h = ground arith
stops e_sign n h = ground arith
stops exponent n h = ground arith

scan_end :
    (at : InNumber) (d : Char) (t : String)
    → IsStop (code d)
    → is_final at ≡ true
    → scan_number at (String.◌∷◌ d t) ≡ some ("", String.◌∷◌ d t)
unfolding scan_number
scan_end at d t h f = rw (scan_number, stops at (code d) h, f) refl

number_end-next :
    (at last : InNumber) (c : Char) (s : String) (o : Option InNumber)
    → step at (code c) ≡ o
    → number_end at (String.◌∷◌ c s) ≡ some last
    → (next : InNumber) × (o ≡ some next) × (number_end next s ≡ some last)
unfolding number_end
number_end-next at last c s none q h = absurd (cc (rw (number_end, q) at h))
number_end-next at last c s (some next) q h = (next, refl, rw (number_end, q) at h)

scan_next :
    (at next : InNumber) (c : Char) (s text rest : String)
    → step at (code c) ≡ some next
    → scan_number next s ≡ some (text, rest)
    → scan_number at (String.◌∷◌ c s) ≡ some (String.◌∷◌ c text, rest)
unfolding scan_number
scan_next at next c s text rest h t = rw (scan_number, h, t) refl

scan_rest :
    (text : String) (at last : InNumber) (d : Char) (t : String)
    → IsStop (code d)
    → number_end at text ≡ some last
    → is_final last ≡ true
    → scan_number at (before text (String.◌∷◌ d t)) ≡ some (text, String.◌∷◌ d t)
unfolding number_end before
scan_rest String.[] at last d t h ends f =
    let same : at ≡ last = cc ends in scan_end at d t h (rw same f)
scan_rest (String.◌∷◌ c s) at last d t h ends f =
    let (next, q, later) = number_end-next at last c s (step at (code c)) refl ends in
    scan_next at next c (before s (String.◌∷◌ d t)) s (String.◌∷◌ d t) q
      (scan_rest s next last d t h later f)

-- A number before a comma or a closing brace is scanned whole.
pub scan_number-IsNumber :
    (text : String) (d : Char) (t : String)
    → IsNumber text
    → IsStop (code d)
    → scan_number start (before text (String.◌∷◌ d t)) ≡ some (text, String.◌∷◌ d t)
scan_number-IsNumber text d t n h = scan_rest text start n.last d t h n.ends n.final

first_digit :
    (at : InNumber) (d : ℕ)
    → (at ≡ start) ⊎ (at ≡ neg)
    → 0 < d
    → d < 10
    → step at (48 + d) ≡ some integer
unfolding step
first_digit start d h lo hi = ground arith
first_digit neg d h lo hi = ground arith
first_digit leading_zero d h lo hi = ground (arith, h)
first_digit integer d h lo hi = ground (arith, h)
first_digit dot d h lo hi = ground (arith, h)
first_digit fraction d h lo hi = ground (arith, h)
first_digit e d h lo hi = ground (arith, h)
first_digit e_sign d h lo hi = ground (arith, h)
first_digit exponent d h lo hi = ground (arith, h)

next_digit : (d : ℕ) → d < 10 → step integer (48 + d) ≡ some integer
unfolding step
next_digit d h = ground arith

number_end-step :
    (at next : InNumber) (c : Char) (s : String)
    → step at (code c) ≡ some next
    → number_end at (String.◌∷◌ c s) ≡ number_end next s
unfolding number_end
number_end-step at next c s h = rw (number_end, h) refl

digits_end :
    (at : InNumber) (fuel n : ℕ) (rest : String)
    → (at ≡ start) ⊎ (at ≡ neg)
    → 0 < n
    → n < fuel
    → number_end at (digits fuel n rest) ≡ number_end integer rest
unfolding digits
digits_end at zero n rest h lo hi = absurd (omega arith)
digits_end at (suc fuel) n rest h lo hi = elim (Bool-cases (ltb n 10)) [
  | inl small ↦ rw small (
      number_end-step at integer (digit n) rest
        (rw (code-digit n (ground arith)) (first_digit at n h lo (ground arith))))
  | inr large ↦ rw large (
      digits_end at fuel (n / 10) _ h (ground arith) (ground arith)
      ∙ number_end-step integer integer (digit (n % 10)) rest
          (rw (code-digit (n % 10) (omega arith)) (next_digit (n % 10) (omega arith))))
]

zero_end : number_end start (natural_text 0) ≡ some leading_zero
unfolding number_end natural_text digits digit step
zero_end = refl

pub itoa-IsNumber : (z : ℤ) → IsNumber (itoa z)
unfolding itoa natural_text is_final number_end
itoa-IsNumber (pos zero) = record { last = leading_zero; ends = zero_end; final = refl }
itoa-IsNumber (pos (suc n)) = record {
  last = integer;
  ends = digits_end start (suc (suc n)) (suc n) "" (inl refl) (omega arith) (omega arith);
  final = refl;
}
itoa-IsNumber (negsuc n) = record {
  last = integer;
  ends =
      number_end-step start neg "-" (natural_text (suc n)) (unfold step in refl)
      ∙ digits_end neg (suc (suc n)) (suc n) "" (inr refl) (omega arith) (omega arith);
  final = refl;
}

-- A number is no empty text, and it begins with a digit or a minus sign.
pub first-IsNumber :
    (text : String)
    → IsNumber text
    → (c : Char) × (s : String) × (text ≡ String.◌∷◌ c s)
      × ((code c ≡ 45) ⊎ ((48 ≤ code c) × (code c ≤ 57)))
unfolding number_end is_final
first-IsNumber String.[] n =
    let same : start ≡ n.last = cc n.ends in absurd (cc (rw (sym same) at n.final))
first-IsNumber (String.◌∷◌ c s) n =
    let (next, q, later) = number_end-next start n.last c s (step start (code c)) refl n.ends in
    (c, s, refl, unfold step in ground (arith, q))
