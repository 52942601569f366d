-- ===== src/Pool/Outage.antt =====
-- The exponential schedule of `dispatch` while the broker stays unavailable.
use native.Mathlib.Nat.{pow-suc}
use devflow_pipeline.Prelude.{
  ℕ, zero, suc, ◌+◌, ◌*◌, ◌/◌, ◌^◌, ◌≤◌, ◌<◌, ◌≡◌, refl, ap, false, List, [], ◌∷◌, arith, All,
  length, ltb, if◌then◌else◌,
}
use devflow_pipeline.Go.Error.{GoError}
use devflow_pipeline.Go.Time.{second}
use devflow_pipeline.Pool.Defs.{
  jitter, next_backoff, waiting, failed, Round, dispatch, receive_backoff_initial,
}
use devflow_pipeline.Pool.Schedule.{InRange}

-- The backoff after `k` failures in a row: one second doubled `k` times, and at most 30 seconds.
abbrev capped : ℕ → ℕ
capped n = if ltb (30 * second) n then 30 * second else n

pub base : ℕ → ℕ
base k = capped (2 ^ k * second)

next_backoff-capped : (n : ℕ) → next_backoff (capped n) ≡ capped (n * 2)
unfolding next_backoff
next_backoff-capped n = ground arith

doubled : (k : ℕ) → 2 ^ k * second * 2 ≡ 2 ^ suc k * second
doubled k = rw pow-suc (omega arith)

next_backoff-base : (k : ℕ) → next_backoff (base k) ≡ base (suc k)
unfolding base
next_backoff-base k = rw (next_backoff-capped (2 ^ k * second)) (ap capped (doubled k))

-- The wait number `k`, `k + 1`, … adds to its backoff less than half of it.
abbrev pub Follows : ℕ → List ℕ → Type 0
Follows k [] = Unit
Follows k (w ∷ ws) = (base k ≤ w) × (w < base k + base k / 2) × Follows (suc k) ws

pow_pos : (k : ℕ) → 1 ≤ 2 ^ k
pow_pos zero = omega arith
pow_pos (suc k) = rw pow-suc (omega (arith, pow_pos k))

base_large : (k : ℕ) → 2 ≤ base k
unfolding base
base_large k = ground (arith, pow_pos k)

first_wait :
    (k : ℕ) (int63n : ℕ → ℕ)
    → InRange int63n
    → let w = base k + jitter int63n (base k) in (base k ≤ w) × (w < base k + base k / 2)
unfolding jitter
first_wait k int63n r = ground (arith, r (base k / 2), base_large k)

module _ (Message Broken : Type 0) where
  -- A round in which the poll fails and nothing is cancelled.
  pub record IsOutage (r : Round Message Broken) : Type 0 where
    pub live : r.done_before ≡ false
    pub error : GoError
    pub fails : r.polled ≡ failed error
    pub live_after : r.done_after_error ≡ false
    pub slept : r.done_in_wait ≡ false
    pub in_range : InRange r.int63n

  dispatch_outage :
      (b : ℕ) (r : Round Message Broken) (rounds : List (Round Message Broken))
      → IsOutage r
      → dispatch Message Broken b (r ∷ rounds)
        ≡ waiting Message Broken
            (b + jitter r.int63n b)
            (dispatch Message Broken (next_backoff b) rounds)
  unfolding dispatch
  dispatch_outage b r rounds o = rw (o.live, o.fails, o.live_after, o.slept)

  waits_from :
      (k : ℕ) (rounds : List (Round Message Broken))
      → All IsOutage rounds
      → let d = dispatch Message Broken (base k) rounds in
        (length d.waits ≡ length rounds) × Follows k d.waits
  waits_from k [] h = unfold dispatch in (refl, tt)
  waits_from k (r ∷ rounds) h =
      let ih = waits_from (suc k) rounds h.1 in
      let now = first_wait k r.int63n h.0.in_range in
      rw (dispatch_outage (base k) r rounds h.0, next_backoff-base k)
        (omega (arith, ih.0), (now.0, now.1, ih.1))

  -- While every poll fails, nothing is cancelled, and the random source keeps to its range: each turn
  -- waits once, and the waits follow the doubled and capped backoffs 1, 2, 4, 8, 16, 30, 30, …
  -- seconds, plus a jitter of less than half.
  pub dispatch-waits_outage :
      (rounds : List (Round Message Broken))
      → All IsOutage rounds
      → let d = dispatch Message Broken receive_backoff_initial rounds in
        (length d.waits ≡ length rounds) × Follows 0 d.waits
  unfolding base
  dispatch-waits_outage rounds h = waits_from 0 rounds h
