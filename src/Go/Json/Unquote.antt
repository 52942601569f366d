-- ===== src/Go/Json/Unquote.antt =====
-- What encoding/json reads of the text between the quotes of a string, and that it reads back what it
-- wrote.
use Prim.Native.Char.{Char, code}
use devflow_pipeline.Prelude.{
  ℕ, zero, suc, ◌+◌, ◌-◌, ◌*◌, ◌/◌, ◌%◌, ◌<◌, String, Bool, true, false, not, ◌&&◌, ◌≡◌, refl, ap,
  ◌∙◌, Option, none, some, leb, ◌==◌, arith, if◌then◌else◌, all_below, all_below_sound,
}
use devflow_pipeline.Go.Json.Quote.{
  Written, itself, numbered, short, written, short_small, hex_digit, quote_char, quote_before,
  quote, chr, chr-code, replacement,
}

-- Where the reader stands: between characters, behind a backslash, or with so many digits of a `\u`
-- left and the number that those before make. A high surrogate may wait for its low one in each.
pub data Reading : Type 0 where
  plain escaped : Option ℕ → Reading
  digits : (left number : ℕ) → Option ℕ → Reading

is_high : ℕ → Bool
is_high n = leb 0xd800 n && leb n 0xdbff

is_low : ℕ → Bool
is_low n = leb 0xdc00 n && leb n 0xdfff

-- A surrogate that has no partner is read as U+FFFD.
alone : Option ℕ → String → String
alone none rest = rest
alone (some high) rest = String.◌∷◌ replacement rest

-- What is read with one character, before `rest`, is `emit`.
pub record Read : Type 0 where
  pub emit : String → String
  pub next : Reading

-- The number of a `\u` is complete.
unpaired : ℕ → Read
unfolding is_high is_low chr
unpaired n =
    if is_high n
    then record { emit = λ rest. rest; next = plain (some n) }
    else if is_low n
    then record { emit = λ rest. String.◌∷◌ replacement rest; next = plain none }
    else record { emit = λ rest. String.◌∷◌ (chr n) rest; next = plain none }

complete : Option ℕ → ℕ → Read
unfolding unpaired
complete none n = unpaired n
complete (some high) n =
    let first = unpaired n in
    if is_low n
    then record {
      emit = λ rest. String.◌∷◌ (chr (0x10000 + (high - 0xd800) * 1024 + (n - 0xdc00))) rest;
      next = plain none;
    }
    else record { emit = λ rest. String.◌∷◌ replacement (first.emit rest); next = first.next }

-- The value of a hexadecimal digit.
hex_value : ℕ → ℕ
hex_value n = if leb n 57 then n - 48 else if leb n 70 then n - 55 else n - 87

-- The number of the character that a backslash and a letter stand for.
unescaped : ℕ → ℕ
unescaped n =
    if n == b'b'
    then 8
    else if n == b'f'
    then 12
    else if n == b'n'
    then 10
    else if n == b'r'
    then 13
    else if n == b't'
    then 9
    else n

read_char : Reading → Char → Read
unfolding complete hex_value unescaped alone
read_char (plain high) c =
    if code c == 92
    then record { emit = λ rest. rest; next = escaped high }
    else record { emit = λ rest. alone high (String.◌∷◌ c rest); next = plain none }
read_char (escaped high) c =
    if code c == b'u' then record { emit = λ rest. rest; next = digits 4 0 high } else record {
      emit = λ rest. alone high (String.◌∷◌ (chr (unescaped (code c))) rest);
      next = plain none;
    }
read_char (digits zero n high) c = complete high n
read_char (digits (suc zero) n high) c = complete high (n * 16 + hex_value (code c))
read_char (digits (suc (suc left)) n high) c = record {
  emit = λ rest. rest;
  next = digits (suc left) (n * 16 + hex_value (code c)) high;
}

waiting : Reading → Option ℕ
waiting (plain high) = high
waiting (escaped high) = high
waiting (digits left n high) = high

unquote_from : Reading → String → String
unfolding read_char waiting
unquote_from at String.[] = alone (waiting at) ""
unquote_from at (String.◌∷◌ c s) = let r = read_char at c in r.emit (unquote_from r.next s)

-- `unquote` of encoding/json, on a text that its scanner has accepted.
unfoldable pub unquote : String → String
unfolding unquote_from
unquote s = unquote_from (plain none) s

surrogates : unquote "a\\u003c\\n\\\"\\ud83d\\ude00\\ud83dx" ≡ "a<\n\"😀�x"
unfolding unquote
surrogates = refl

itself-ne-backslash : (n : ℕ) → written n ≡ itself → (n == 92) ≡ false
unfolding written
itself-ne-backslash n h = ground arith

-- The letter behind a backslash is read as the number that it was written for.
is_undone : ℕ → Written → Bool
unfolding unescaped
is_undone n itself = true
is_undone n numbered = true
is_undone n (short d) = unescaped (code d) == n && not (code d == 117)

undone_table : all_below 93 (λ n. is_undone n (written n)) ≡ true
unfolding all_below is_undone written
undone_table = refl

short-unescaped :
    (n : ℕ) (d : Char) → written n ≡ short d → (unescaped (code d) ≡ n) × ((code d == 117) ≡ false)
unfolding is_undone
short-unescaped n d h =
    let tried : is_undone n (written n) ≡ true =
      all_below_sound 93 (λ n. is_undone n (written n)) n undone_table (short_small n d h) in
    let holds : is_undone n (short d) ≡ true = rw h at tried in ground arith

numbered_small : (n : ℕ) → written n ≡ numbered → n < 0xd800
unfolding written
numbered_small n h = ground arith

hex_table : all_below 16 (λ d. hex_value (code (hex_digit d)) == d) ≡ true
unfolding all_below hex_value hex_digit
hex_table = refl

hex_value-hex_digit : (d : ℕ) → d < 16 → hex_value (code (hex_digit d)) ≡ d
hex_value-hex_digit d h =
    let tried : (hex_value (code (hex_digit d)) == d) ≡ true =
      all_below_sound 16 (λ d. hex_value (code (hex_digit d)) == d) d hex_table h in
    ground arith

four_digits :
    (n : ℕ)
    → n < 65536
    → (((0 * 16 + n / 4096 % 16) * 16 + n / 256 % 16) * 16 + n / 16 % 16) * 16 + n % 16 ≡ n
four_digits n h = omega arith

not_high : (n : ℕ) → n < 0xd800 → is_high n ≡ false
unfolding is_high
not_high n h = ground arith

not_low : (n : ℕ) → n < 0xd800 → is_low n ≡ false
unfolding is_low
not_low n h = ground arith

-- Four digits of a number below the surrogates are read as its character.
read_number :
    (c : Char) (n : ℕ) (t : String)
    → code c ≡ n
    → n < 0xd800
    → unquote_from (digits 4 0 none) (
        String.◌∷◌ (hex_digit (n / 4096 % 16)) (
          String.◌∷◌
            (hex_digit (n / 256 % 16))
            (String.◌∷◌ (hex_digit (n / 16 % 16)) (String.◌∷◌ (hex_digit (n % 16)) t))))
      ≡ String.◌∷◌ c (unquote_from (plain none) t)
unfolding unquote_from
read_number c n t same h =
    rw
      (
        unquote_from,
        hex_value-hex_digit (n / 4096 % 16) (omega arith),
        hex_value-hex_digit (n / 256 % 16) (omega arith),
        hex_value-hex_digit (n / 16 % 16) (omega arith),
        hex_value-hex_digit (n % 16) (omega arith),
        four_digits n (omega arith),
        not_high n h,
        not_low n h,
      )
      (ap (λ (x : Char). String.◌∷◌ x (unquote_from (plain none) t)) (chr-code c n same h))

unquote_from-quote_char :
    (w : Written) (c : Char) (t : String)
    → written (code c) ≡ w
    → unquote_from (plain none) (quote_char w c t) ≡ String.◌∷◌ c (unquote_from (plain none) t)
unfolding unquote_from quote_char
unquote_from-quote_char itself c t h = rw (unquote_from, itself-ne-backslash (code c) h) refl
unquote_from-quote_char (short d) c t h =
    let (undone, other) = short-unescaped (code c) d h in
    rw (unquote_from, other, undone)
      (ap (λ (x : Char). String.◌∷◌ x (unquote_from (plain none) t))
        (chr-code c (code c) refl (omega (arith, short_small (code c) d h))))
unquote_from-quote_char numbered c t h = read_number c (code c) t refl (numbered_small (code c) h)

unquote-quote_from : (s : String) → unquote_from (plain none) (quote s) ≡ s
unfolding quote_before unquote_from
unquote-quote_from String.[] = refl
unquote-quote_from (String.◌∷◌ c s) =
    unquote_from-quote_char (written (code c)) c (quote s) refl
    ∙ ap (λ (t : String). String.◌∷◌ c t) (unquote-quote_from s)

-- Every text is read back as it was written.
pub unquote-quote : (s : String) → unquote (quote s) ≡ s
unfolding unquote
unquote-quote s = unquote-quote_from s
