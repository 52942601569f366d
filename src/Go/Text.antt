-- ===== src/Go/Text.antt =====
-- `len` and `strings.TrimSpace` on text that is valid UTF-8, as decoded JSON text is.
use Prim.Native.String
use Prim.Native.Char.{Char, code}
use text.Mathlib.TextLemmas.{cons-ne-nil}
use devflow_pipeline.Prelude.{
  ℕ, String, Bool, true, false, ◌&&◌, ◌||◌, ◌≡◌, refl, ◌↔◌, inl, inr, arith, leb, ◌==◌, str_eq,
  eq_iff, Bool-cases, if◌then◌else◌,
}

-- `len(s)`: bytes
abbrev pub byte_len : String → ℕ
byte_len s = String.len s

-- `unicode.IsSpace`
pub is_space : Char → Bool
is_space ch =
    let c = code ch in
    leb 0x09 c && leb c 0x0d
    || c == 0x20
    || c == 0x85
    || c == 0xa0
    || c == 0x1680
    || leb 0x2000 c && leb c 0x200a
    || c == 0x2028
    || c == 0x2029
    || c == 0x202f
    || c == 0x205f
    || c == 0x3000

trim_left : String → String
trim_left String.[] = String.[]
trim_left (String.◌∷◌ c s) = let rest = trim_left s in if is_space c then rest else String.◌∷◌ c s

is_empty : String → Bool
is_empty String.[] = true
is_empty (String.◌∷◌ c s) = false

trim_right : String → String
unfolding is_empty
trim_right String.[] = String.[]
trim_right (String.◌∷◌ c s) =
    let rest = trim_right s in if is_space c && is_empty rest then String.[] else String.◌∷◌ c rest

unfoldable pub trim_space : String → String
unfolding trim_left trim_right is_space
trim_space s = trim_right (trim_left s)

pub and-left : (a b : Bool) → (a && b) ≡ true → a ≡ true
and-left a b h = ground arith

pub and-right : (a b : Bool) → (a && b) ≡ true → b ≡ true
and-right a b h = ground arith

-- Every character is a space.
abbrev pub IsBlank : String → Type 0
IsBlank String.[] = Unit
IsBlank (String.◌∷◌ c s) = (is_space c ≡ true) × IsBlank s

is_empty-eq : (s : String) → is_empty s ≡ true → s ≡ String.[]
unfolding is_empty
is_empty-eq String.[] h = refl
is_empty-eq (String.◌∷◌ c s) h = cc

trim_left-IsBlank : (s : String) → IsBlank s → trim_left s ≡ String.[]
unfolding trim_left
trim_left-IsBlank String.[] h = refl
trim_left-IsBlank (String.◌∷◌ c s) h = rw h.0 (trim_left-IsBlank s h.1)

trim_right-empty : (s : String) → trim_right s ≡ String.[] → IsBlank s
unfolding trim_right
trim_right-empty String.[] h = tt
trim_right-empty (String.◌∷◌ c s) h = elim (Bool-cases (is_space c && is_empty (trim_right s))) [
  | inl both ↦
      (and-left _ _ both, trim_right-empty s (is_empty-eq (trim_right s) (and-right _ _ both)))
  | inr kept ↦ absurd (cons-ne-nil c (trim_right s) (rw kept at h))
]

IsBlank-trim_left : (s : String) → IsBlank (trim_left s) → IsBlank s
unfolding trim_left
IsBlank-trim_left String.[] h = tt
IsBlank-trim_left (String.◌∷◌ c s) h = elim (Bool-cases (is_space c)) [
  | inl space ↦ (space, IsBlank-trim_left s (rw space at h))
  | inr other ↦ rw other at h
]

-- `strings.TrimSpace` leaves nothing exactly of a blank text.
pub trim_space-empty_iff : (s : String) → (str_eq (trim_space s) "" ≡ true) ↔ IsBlank s
unfolding trim_space trim_right
trim_space-empty_iff s = (
  λ h. IsBlank-trim_left s (trim_right-empty (trim_left s) ((eq_iff (trim_space s) "").0 h)),
  λ h. (eq_iff (trim_space s) "").1 (rw (trim_left-IsBlank s h)),
)
