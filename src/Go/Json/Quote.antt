-- ===== src/Go/Json/Quote.antt =====
-- The text of a JSON string between its quotes, as encoding/json of Go 1.22 writes it, with the escapes
-- for HTML, and as it reads it.
use Prim.Native.Char.{Char, char, code, IsScalar}
use Prim.Native.Nat.{compare, Ordering}
use text.Mathlib.TextEquality.{Char-path}
use native.Mathlib.Decide.{dec_lt}
use devflow_pipeline.Prelude.{
  ℕ, zero, suc, ◌/◌, ◌%◌, ◌<◌, String, ◌||◌, ◌≡◌, sym, ltb, ◌==◌, arith, if◌then◌else◌,
}

-- U+FFFD
abbrev pub replacement : Char
replacement = char 65533 tt

pub below_surrogates : (n : ℕ) → n < 55296 → IsScalar n
below_surrogates n h = let e : compare n 55296 ≡ Ordering.lt = ground arith in rw e tt

pub above_surrogates : (n : ℕ) → 57343 < n → n < 1114112 → IsScalar n
above_surrogates n h k =
    let e : compare n 55296 ≡ Ordering.gt = ground arith in
    let p : compare 57343 n ≡ Ordering.lt = ground arith in
    let q : compare n 1114112 ≡ Ordering.lt = ground arith in rw (e, p, q) tt

high_chr : ℕ → Char
unfolding dec_lt
high_chr n = elim (dec_lt 57343 n) [
  | yes k ↦ elim (dec_lt n 1114112) [ yes l ↦ char n (above_surrogates n k l) | no l ↦ replacement ]
  | no k ↦ replacement
]

chr_by : (n : ℕ) → Dec (n < 55296) → Char
unfolding high_chr
chr_by n (yes h) = char n (below_surrogates n h)
chr_by n (no h) = high_chr n

-- The character of a number, or U+FFFD where there is none.
unfoldable pub chr : ℕ → Char
unfolding chr_by dec_lt
chr n = chr_by n (dec_lt n 55296)

-- Below the surrogates a character is the one of its number.
chr_by-code : (c : Char) (n : ℕ) (d : Dec (n < 55296)) → code c ≡ n → n < 55296 → chr_by n d ≡ c
unfolding chr_by
chr_by-code c n (yes k) same h = Char-path (char n (below_surrogates n k)) c (sym same)
chr_by-code c n (no k) same h = absurd (k h)

pub chr-code : (c : Char) (n : ℕ) → code c ≡ n → n < 55296 → chr n ≡ c
unfolding chr
chr-code c n same h = chr_by-code c n (dec_lt n 55296) same h

-- What stands for a character between the quotes: itself, a backslash and a letter, or its number.
pub data Written : Type 0 where
  itself numbered : Written
  short : Char → Written

unfoldable pub written : ℕ → Written
written n =
    if n == 34
    then short "\""
    else if n == 92
    then short "\\"
    else if n == 8
    then short "b"
    else if n == 12
    then short "f"
    else if n == 10
    then short "n"
    else if n == 13
    then short "r"
    else if n == 9
    then short "t"
    else if ltb n 32 || n == b'<' || n == b'>' || n == b'&' || n == 0x2028 || n == 0x2029
    then numbered
    else itself

pub short_small : (n : ℕ) (d : Char) → written n ≡ short d → n < 93
unfolding written
short_small n d h = ground arith

unfoldable pub hex_digit : ℕ → Char
hex_digit zero = "0"
hex_digit (suc zero) = "1"
hex_digit (suc (suc zero)) = "2"
hex_digit (suc (suc (suc zero))) = "3"
hex_digit (suc (suc (suc (suc zero)))) = "4"
hex_digit (suc (suc (suc (suc (suc zero))))) = "5"
hex_digit (suc (suc (suc (suc (suc (suc zero)))))) = "6"
hex_digit (suc (suc (suc (suc (suc (suc (suc zero))))))) = "7"
hex_digit (suc (suc (suc (suc (suc (suc (suc (suc zero)))))))) = "8"
hex_digit (suc (suc (suc (suc (suc (suc (suc (suc (suc zero))))))))) = "9"
hex_digit (suc (suc (suc (suc (suc (suc (suc (suc (suc (suc zero)))))))))) = "a"
hex_digit (suc (suc (suc (suc (suc (suc (suc (suc (suc (suc (suc zero))))))))))) = "b"
hex_digit (suc (suc (suc (suc (suc (suc (suc (suc (suc (suc (suc (suc zero)))))))))))) = "c"
hex_digit (suc (suc (suc (suc (suc (suc (suc (suc (suc (suc (suc (suc (suc zero))))))))))))) = "d"
hex_digit (suc (suc (suc (suc (suc (suc (suc (suc (suc (suc (suc (suc (suc (suc zero)))))))))))))) =
    "e"
hex_digit _ = "f"

-- A character, and a text, between the quotes, before `rest`.
unfoldable pub quote_char : Written → Char → String → String
unfolding hex_digit
quote_char itself c rest = String.◌∷◌ c rest
quote_char (short d) c rest = String.◌∷◌ "\\" (String.◌∷◌ d rest)
quote_char numbered c rest =
    let n = code c in
    String.◌∷◌ "\\" (
      String.◌∷◌ "u" (
        String.◌∷◌ (hex_digit (n / 4096 % 16)) (
          String.◌∷◌ (hex_digit (n / 256 % 16))
            (String.◌∷◌ (hex_digit (n / 16 % 16)) (String.◌∷◌ (hex_digit (n % 16)) rest)))))

unfoldable pub quote_before : String → String → String
unfolding quote_char written
quote_before String.[] rest = rest
quote_before (String.◌∷◌ c s) rest = quote_char (written (code c)) c (quote_before s rest)

-- The text between the quotes that `json.Marshal` writes.
abbrev pub quote : String → String
quote s = quote_before s ""
