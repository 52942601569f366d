-- ===== src/Go/Call.antt =====
-- A Go function with effects: it changes a state, and returns or panics. What was written before a
-- panic stays written.
use devflow_pipeline.Prelude.{String, Option, none, some}
use devflow_pipeline.Go.Error.{GoError, wrap}

pub data Outcome {ℓ} (A : Type ℓ) : Type ℓ where
  returned : A → Outcome A
  panicked : String → Outcome A

abbrev pub Call {ℓ} : Type ℓ → Type ℓ → Type ℓ
Call S A = S → Outcome A × S

module _ {ℓ} {S A : Type ℓ} where
  abbrev pub return : A → Call S A
  return a s = (returned a, s)

  abbrev pub panic : String → Call S A
  panic text s = (panicked text, s)

module _ {ℓ} {S A B : Type ℓ} where
  abbrev pub continue : Outcome A → (A → Call S B) → Call S B
  continue (returned a) f s = f a s
  continue (panicked text) f s = (panicked text, s)

  infixl 10 ◌>>=◌ ◌>>◌
  abbrev pub ◌>>=◌ : Call S A → (A → Call S B) → Call S B
  ◌>>=◌ m f s = continue (m s).0 f (m s).1

  abbrev pub ◌>>◌ : Call S A → Call S B → Call S B
  m >> k = m >>= λ _. k

-- `if err != nil { return fmt.Errorf("text: %w", err) }; return nil`
abbrev pub wrap_err : String → Option GoError → Option GoError
wrap_err text none = none
wrap_err text (some err) = some (wrap text err)

-- A Go function that returns `(value, error)`, its value unused where the error is not nil.
pub data Result {ℓ} (A : Type ℓ) : Type ℓ where
  ok : A → Result A
  err : GoError → Result A

abbrev pub and_then {ℓ} : {A B : Type ℓ} → Result A → (A → Result B) → Result B
and_then (ok a) f = f a
and_then (err e) f = err e

abbrev pub nil_pointer : String
nil_pointer = "runtime error: invalid memory address or nil pointer dereference"

-- `*p`
abbrev pub deref {ℓ} : {S A : Type ℓ} → Option A → Call S A
deref none = panic nil_pointer
deref (some a) = return a
