-- ===== src/Env.antt =====
-- services/*/internal/infra/config/config.go: the helpers `getenv` and `envInt`, which both services
-- share word for word, and the conversion to int32. `environ` is `os.Getenv`.
use devflow_pipeline.Prelude.{
  ℕ, ◌+◌, ◌*◌, ◌^◌, ◌<◌, String, ◌≡◌, ◌≢◌, Option, none, some, ℤ, pos, sub_ℕ, ltb, arith, str_eq,
  eq_iff, if◌then◌else◌, refl, ap,
}
use devflow_pipeline.Go.Decimal.{itoa, atoi, atoi-itoa}
use devflow_pipeline.Go.Time.Format.{floor_mod}

-- `getenv`
unfoldable pub getenv : (String → String) → String → String → String
getenv environ key default = if str_eq (environ key) "" then default else environ key

or_default : Option ℤ → ℤ → ℤ
or_default none default = default
or_default (some n) default = n

-- `envInt`
unfoldable pub env_int : (String → String) → String → ℤ → ℤ
unfolding or_default
env_int environ key default =
    if str_eq (environ key) "" then default else or_default (atoi (environ key)) default

-- `int32(n)`
unfoldable pub to_int32 : ℤ → ℤ
to_int32 n = let m = floor_mod n (2 ^ 32) in if ltb m (2 ^ 31) then pos m else sub_ℕ m (2 ^ 32)

atoi-empty : atoi "" ≡ none
unfolding atoi
atoi-empty = refl

itoa-nonempty : (n : ℕ) → n < 2 ^ 63 → itoa (pos n) ≢ ""
itoa-nonempty n h e = ground (arith, atoi-itoa (pos n) (omega arith) h, ap atoi e, atoi-empty)

pub env_int-itoa :
    (environ : String → String) (key : String) (default : ℤ) (n : ℕ)
    → environ key ≡ itoa (pos n)
    → n < 2 ^ 63
    → env_int environ key default ≡ pos n
unfolding env_int or_default
env_int-itoa environ key default n e h =
    ground
      (arith, e, atoi-itoa (pos n) (omega arith) h, itoa-nonempty n h, eq_iff (itoa (pos n)) "")

pub to_int32_wraps : (w k : ℕ) → w < 2 ^ 31 → to_int32 (pos (w + k * 2 ^ 32)) ≡ pos w
unfolding to_int32
to_int32_wraps w k h = ground arith
