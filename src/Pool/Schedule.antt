-- ===== src/Pool/Schedule.antt =====
-- The waits of `dispatch` after failed polls.
use devflow_pipeline.Prelude.{ℕ, ◌+◌, ◌*◌, ◌/◌, ◌≤◌, ◌<◌, List, [], ◌∷◌, arith, All}
use devflow_pipeline.Go.Time.{second}
use devflow_pipeline.Pool.Defs.{
  jitter, next_backoff, Round, dispatch, receive_backoff_initial, receive_backoff_max,
}

-- `rand.Int63n(n)` returns a number below `n`, for a positive `n`.
abbrev pub InRange : (ℕ → ℕ) → Type 0
InRange int63n = (n : ℕ) → 0 < n → int63n n < n

abbrev Fits : ℕ → Type 0
Fits backoff = (receive_backoff_initial ≤ backoff) × (backoff ≤ receive_backoff_max)

-- A wait of at least the first backoff and below one and a half times the last.
abbrev pub IsWait : ℕ → Type 0
IsWait wait = (second ≤ wait) × (wait < 45 * second)

next_backoff-Fits : (b : ℕ) → Fits b → Fits (next_backoff b)
unfolding next_backoff
next_backoff-Fits b h = ground arith

jitter-IsWait : (b : ℕ) (int63n : ℕ → ℕ) → InRange int63n → Fits b → IsWait (b + jitter int63n b)
unfolding jitter
jitter-IsWait b int63n r h = ground (arith, r (b / 2))

module _ (Message Broken : Type 0) where
  waits-IsWait :
      (b : ℕ) (rounds : List (Round Message Broken))
      → Fits b
      → All (λ (r : Round Message Broken). InRange r.int63n) rounds
      → All IsWait (dispatch Message Broken b rounds).waits
  unfolding dispatch
  waits-IsWait b [] f h = tt
  waits-IsWait b (r ∷ rounds) f h = ground (
    arith,
    jitter-IsWait b r.int63n h.0 f,
    waits-IsWait (next_backoff b) rounds (next_backoff-Fits b f) h.1,
    waits-IsWait receive_backoff_initial rounds (omega arith) h.1,
  )

  -- From the first backoff on, whatever the polls return, if the random source keeps to its range: each
  -- wait is at least a second and below
  -- 45 seconds.
  pub dispatch-waits :
      (rounds : List (Round Message Broken))
      → All (λ (r : Round Message Broken). InRange r.int63n) rounds
      → All IsWait (dispatch Message Broken receive_backoff_initial rounds).waits
  dispatch-waits rounds h = waits-IsWait receive_backoff_initial rounds (omega arith) h
