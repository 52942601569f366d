-- ===== src/Go/Json/Strings.antt =====
-- The strings that encoding/json writes, in its scanner.
use Prim.Native.Char.{Char, code}
use devflow_pipeline.Prelude.{
  ℕ, zero, suc, ◌%◌, ◌/◌, ◌≤◌, ◌<◌, String, Bool, true, false, ◌≡◌, ◌≢◌, refl, sym, ap, ◌∙◌, some,
  all_below, all_below_sound, arith,
}
use devflow_pipeline.Go.Json.Quote.{
  Written, itself, numbered, short, written, short_small, hex_digit, quote_char, quote_before,
  quote,
}
use devflow_pipeline.Go.Json.Lex.{
  InString, plain, escaped, digits, Lexed, closes, refused, goes, lex, scan_string,
}
use devflow_pipeline.Go.Json.Print.{before}

-- A text that the scanner takes for one string.
abbrev pub IsText : String → Type 0
IsText text =
    (rest : String) → scan_string plain (before text (String.◌∷◌ "\"" rest)) ≡ some (text, rest)

-- A text that needs no escape.
abbrev pub IsPlain : String → Type 0
IsPlain String.[] = Unit
IsPlain (String.◌∷◌ c s) = (32 ≤ code c) × (code c ≢ 34) × (code c ≢ 92) × IsPlain s

pub IsPlain-IsText : (text : String) → IsPlain text → IsText text
unfolding scan_string before
IsPlain-IsText String.[] h rest = refl
IsPlain-IsText (String.◌∷◌ c s) (low, not_quote, not_escape, h) rest =
    let next : lex plain (code c) ≡ goes plain = unfold lex in ground arith in
    rw (scan_string, next, IsPlain-IsText s h rest)

quote_char-before :
    (w : Written) (c : Char) (t rest : String)
    → before (quote_char w c t) rest ≡ quote_char w c (before t rest)
unfolding before quote_char
quote_char-before itself c t rest = refl
quote_char-before numbered c t rest = refl
quote_char-before (short d) c t rest = refl

pub quote_before-before : (s rest : String) → quote_before s rest ≡ before (quote s) rest
unfolding quote_before before
quote_before-before String.[] rest = refl
quote_before-before (String.◌∷◌ c s) rest =
    ap (quote_char (written (code c)) c) (quote_before-before s rest)
    ∙ sym (quote_char-before (written (code c)) c (quote s) rest)

-- The scanner goes on over what is written for one character.
itself_goes : (n : ℕ) → written n ≡ itself → lex plain n ≡ goes plain
unfolding written lex
itself_goes n h = ground arith

is_plain : Lexed → Bool
is_plain (goes plain) = true
is_plain _ = false

is_plain-goes : (l : Lexed) → is_plain l ≡ true → l ≡ goes plain
unfolding is_plain
is_plain-goes closes h = absurd (cc h)
is_plain-goes refused h = absurd (cc h)
is_plain-goes (goes plain) h = refl
is_plain-goes (goes escaped) h = absurd (cc h)
is_plain-goes (goes (digits n)) h = absurd (cc h)

-- The letter behind a backslash is one that the scanner knows.
is_known : Written → Bool
unfolding lex is_plain
is_known itself = true
is_known numbered = true
is_known (short d) = is_plain (lex escaped (code d))

known_table : all_below 93 (λ n. is_known (written n)) ≡ true
unfolding all_below is_known written
known_table = refl

short_goes : (n : ℕ) (d : Char) → written n ≡ short d → lex escaped (code d) ≡ goes plain
unfolding is_known
short_goes n d h =
    let tried : is_known (written n) ≡ true =
      all_below_sound 93 (λ n. is_known (written n)) n known_table (short_small n d h) in
    let holds : is_known (short d) ≡ true = rw h at tried in
    is_plain-goes (lex escaped (code d)) holds

hex_table : all_below 16 (λ d. is_plain (lex (digits zero) (code (hex_digit d)))) ≡ true
unfolding all_below is_plain lex hex_digit
hex_table = refl

last_digit : (d : ℕ) → d < 16 → lex (digits zero) (code (hex_digit d)) ≡ goes plain
last_digit d h =
    is_plain-goes (lex (digits zero) (code (hex_digit d)))
      (all_below_sound 16 (λ d. is_plain (lex (digits zero) (code (hex_digit d)))) d hex_table h)

digit_goes : (n k : ℕ) → lex (digits zero) n ≡ goes plain → lex (digits (suc k)) n ≡ goes (digits k)
unfolding lex
digit_goes n k h = ground arith

more_digit : (d k : ℕ) → d < 16 → lex (digits (suc k)) (code (hex_digit d)) ≡ goes (digits k)
more_digit d k h = digit_goes (code (hex_digit d)) k (last_digit d h)

scan_next :
    (at next : InString) (c : Char) (s text rest : String)
    → lex at (code c) ≡ goes next
    → scan_string next s ≡ some (text, rest)
    → scan_string at (String.◌∷◌ c s) ≡ some (String.◌∷◌ c text, rest)
unfolding scan_string
scan_next at next c s text rest h t = rw (scan_string, h, t) refl

scan_char :
    (w : Written) (c : Char) (s text rest : String)
    → written (code c) ≡ w
    → scan_string plain s ≡ some (text, rest)
    → scan_string plain (quote_char w c s) ≡ some (quote_char w c text, rest)
unfolding quote_char lex
scan_char itself c s text rest h t = scan_next plain plain c s text rest (itself_goes (code c) h) t
scan_char (short d) c s text rest h t =
    scan_next plain escaped "\\" _ _ rest refl
      (scan_next escaped plain d s text rest (short_goes (code c) d h) t)
scan_char numbered c s text rest h t =
    let n = code c in
    scan_next plain escaped "\\" _ _ rest refl (
      scan_next escaped (digits 3) "u" _ _ rest refl (
        scan_next (digits 3) (digits 2) (hex_digit (n / 4096 % 16)) _ _ rest
          (more_digit (n / 4096 % 16) 2 (omega arith))
          (scan_next (digits 2) (digits 1) (hex_digit (n / 256 % 16)) _ _ rest
            (more_digit (n / 256 % 16) 1 (omega arith))
            (scan_next (digits 1) (digits 0) (hex_digit (n / 16 % 16)) _ _ rest
              (more_digit (n / 16 % 16) 0 (omega arith))
              (scan_next (digits 0) plain (hex_digit (n % 16)) s text rest
                (last_digit (n % 16) (omega arith)) t)))))

pub scan_quoted :
    (s rest : String)
    → scan_string plain (quote_before s (String.◌∷◌ "\"" rest)) ≡ some (quote s, rest)
unfolding quote_before scan_string lex
scan_quoted String.[] rest = refl
scan_quoted (String.◌∷◌ c s) rest =
    scan_char (written (code c)) c (quote_before s (String.◌∷◌ "\"" rest)) (quote s) rest refl
      (scan_quoted s rest)

pub quote-IsText : (s : String) → IsText (quote s)
quote-IsText s rest = rw (sym (quote_before-before s (String.◌∷◌ "\"" rest))) (scan_quoted s rest)
