-- ===== src/Go/Process.antt =====
-- How a Go process ends: `os.Exit`, the deferred calls of a function, and what a call that returned has
-- done before; and the two ends of services/*/cmd/*/main.go that both services share.
use devflow_pipeline.Prelude.{ℕ, ◌≡◌, refl, Option, none, some}
use devflow_pipeline.Go.Error.{GoError}
use devflow_pipeline.Go.Call.{Call, Outcome, returned, panicked, continue, ◌>>=◌}

-- A `run` that returns its error, or the process exits before it returns.
pub data Ended : Type 0 where
  finished : Option GoError → Ended
  os_exit : (code : ℕ) → Ended

-- The code that the process of a service exits with: `main` after `run`.
unfoldable pub exit_code : Ended → ℕ
exit_code (finished none) = 0
exit_code (finished (some e)) = 1
exit_code (os_exit code) = code

-- How the wait for the workers ends: they are done, or the grace period is over.
pub data Drain : Type 0 where
  drained grace_exceeded : Drain

-- The last `select` of `run`.
unfoldable pub ended : Drain → Ended
ended drained = finished none
ended grace_exceeded = os_exit 2

module _ {S : Type 0} where
  -- `defer` of a call whose result is not used: it runs after a return and after a panic, and not after
  -- `os.Exit`.
  after_body : Outcome Ended → Call S (Option GoError) → S → Outcome Ended × S
  after_body (returned (os_exit code)) cleanup s = (returned (os_exit code), s)
  after_body (returned (finished e)) cleanup s =
      continue (cleanup s).0 (λ _ s'. (returned (finished e), s')) (cleanup s).1
  after_body (panicked text) cleanup s =
      continue (cleanup s).0 (λ _ s'. (panicked text, s')) (cleanup s).1

  unfoldable pub deferring : Call S (Option GoError) → Call S Ended → Call S Ended
  unfolding after_body
  deferring cleanup body s = after_body (body s).0 cleanup (body s).1

module _ {S A B : Type 0} where
  split_pair :
      (o : Outcome A) (s : S) (f : A → Call S B) (b : B)
      → (continue o f s).0 ≡ returned b
      → (a : A) × (o ≡ returned a) × ((f a s).0 ≡ returned b)
  split_pair (returned a) s f b h = (a, refl, h)
  split_pair (panicked text) s f b h = cc

  -- A sequence that returned: its first call returned.
  pub >>=-returned :
      (m : Call S A) (f : A → Call S B) (s : S) (b : B)
      → ((m >>= f) s).0 ≡ returned b
      → (a : A) × ((m s).0 ≡ returned a) × ((f a (m s).1).0 ≡ returned b)
  >>=-returned m f s b h = split_pair (m s).0 (m s).1 f b h

module _ {S : Type 0} where
  after_body-returned :
      (cleanup : Call S (Option GoError)) (o : Outcome Ended) (s : S) (end : Ended)
      → (after_body o cleanup s).0 ≡ returned end
      → o ≡ returned end
  unfolding after_body
  after_body-returned cleanup (returned (os_exit code)) s end h = h
  after_body-returned cleanup (returned (finished e)) s end h =
      let (x, q, r) =
        split_pair (cleanup s).0 (cleanup s).1 (λ _ s'. (returned (finished e), s')) end h in
      r
  after_body-returned cleanup (panicked text) s end h =
      let (x, q, r) = split_pair (cleanup s).0 (cleanup s).1 (λ _ s'. (panicked text, s')) end h in
      absurd (cc r)

  -- A function with a deferred call that returned: its body ended so.
  pub deferring-returned :
      (cleanup : Call S (Option GoError)) (body : Call S Ended) (s : S) (end : Ended)
      → (deferring cleanup body s).0 ≡ returned end
      → (body s).0 ≡ returned end
  unfolding deferring
  deferring-returned cleanup body s end h = after_body-returned cleanup (body s).0 (body s).1 end h
