-- ===== src/Pool/Grace.antt =====
-- The drain of a pool in time, from the cancellation of its context on: `handlerTimeout` of
-- services/*/internal/infra/worker/pool.go against `shutdownGrace` of services/*/cmd/*/main.go.
use devflow_pipeline.Prelude.{
  ℕ, suc, ◌+◌, ◌*◌, ◌≤◌, ◌<◌, Bool, true, false, ◌≡◌, ◌⊎◌, inl, inr, refl, List, [], ◌∷◌, ◌++◌, map,
  All, All-append, All-split, arith,
}
use devflow_pipeline.Go.Time.{second}

abbrev pub handler_timeout : ℕ
handler_timeout = 25 * second

abbrev pub shutdown_grace : ℕ
shutdown_grace = 30 * second

-- A pool after the cancellation: the time since then, whether `dispatch` has yet to return, the number
-- of workers that wait on the channel, and for each message in hand the time since its `WithTimeout`.
pub record Draining : Type 0 where
  pub elapsed : ℕ
  pub dispatching : Bool
  pub waiting : ℕ
  pub ages : List ℕ

-- A `select` with a worker that waits may still send, `dispatch` returns, a `runOne` ends, or time
-- passes. No branch of `dispatch` blocks once the context is done, so time passes after its return.
pub data Step : Draining → Draining → Type 0 where
  send :
      (t k : ℕ) (ages : List ℕ)
      → Step
          (record { elapsed = t; dispatching = true; waiting = suc k; ages = ages })
          (record { elapsed = t; dispatching = true; waiting = k; ages = 0 ∷ ages })
  return :
      (t k : ℕ) (ages : List ℕ)
      → Step
          (record { elapsed = t; dispatching = true; waiting = k; ages = ages })
          (record { elapsed = t; dispatching = false; waiting = k; ages = ages })
  finish :
      (t k age : ℕ) (dispatching : Bool) (before behind : List ℕ)
      → Step
          (record {
            elapsed = t;
            dispatching = dispatching;
            waiting = k;
            ages = before ++ age ∷ behind;
          })
          (record {
            elapsed = t;
            dispatching = dispatching;
            waiting = suc k;
            ages = before ++ behind;
          })
  pass :
      (t k d : ℕ) (ages : List ℕ)
      → Step
          (record { elapsed = t; dispatching = false; waiting = k; ages = ages })
          (record {
            elapsed = t + d;
            dispatching = false;
            waiting = k;
            ages = map (λ a. a + d) ages;
          })

-- The states on the way from the cancellation.
pub data Drains (s : Draining) : Draining → Type 0 where
  here : Drains s s
  next : {t u : Draining} → Drains s t → Step t u → Drains s u

-- Every message in hand was there at the cancellation or was sent at that instant.
abbrev IsOld : Draining → Type 0
IsOld s = All (λ (a : ℕ). s.elapsed ≤ a) s.ages × ((s.dispatching ≡ false) ⊎ (s.elapsed ≡ 0))

map-All :
    (t d : ℕ) (ages : List ℕ)
    → All (λ (a : ℕ). t ≤ a) ages
    → All (λ (a : ℕ). t + d ≤ a) (map (λ a. a + d) ages)
map-All t d [] h = tt
map-All t d (a ∷ ages) h = (omega (arith, h.0), map-All t d ages h.1)

step-IsOld : {s t : Draining} → Step s t → IsOld s → IsOld t
step-IsOld (send t k ages) h = ((ground (arith, h.1), h.0), h.1)
step-IsOld (return t k ages) h = (h.0, inl refl)
step-IsOld (finish t k age dispatching before behind) h =
    let (left, right) = All-split (λ (a : ℕ). t ≤ a) before (age ∷ behind) h.0 in
    (All-append (λ (a : ℕ). t ≤ a) before behind left right.1, h.1)
step-IsOld (pass t k d ages) h = (map-All t d ages h.0, inl refl)

drain-IsOld : {s t : Draining} → Drains s t → IsOld s → IsOld t
drain-IsOld here h = h
drain-IsOld (next before step) h = step-IsOld step (drain-IsOld before h)

start-IsOld : (ages : List ℕ) → All (λ (a : ℕ). 0 ≤ a) ages
start-IsOld [] = tt
start-IsOld (a ∷ ages) = (omega arith, start-IsOld ages)

-- `Run` has returned: the channel is closed and no message is in hand.
abbrev pub HasReturned : Draining → Type 0
HasReturned s = (s.dispatching ≡ false) × (s.ages ≡ [])

-- Time that has passed is the age of a message at least, and none has while `dispatch` runs.
returned_or_young :
    (t k : ℕ) (dispatching : Bool) (ages : List ℕ)
    → IsOld (record { elapsed = t; dispatching = dispatching; waiting = k; ages = ages })
    → All (λ (a : ℕ). a ≤ handler_timeout) ages
    → ((dispatching ≡ false) × (ages ≡ [])) ⊎ (t ≤ handler_timeout)
returned_or_young t k dispatching (a ∷ ages) h young = inr (omega (arith, h.0.0, young.0))
returned_or_young t k dispatching [] (old, inl done) young = inl (done, refl)
returned_or_young t k dispatching [] (old, inr none_passed) young = inr (omega (arith, none_passed))

-- If every message in hand is within the timeout of its handler, the pool has returned, or the grace
-- period is not over: no more than the timeout of a handler has passed since the cancellation.
pub drain-HasReturned :
    (s t : Draining)
    → s.elapsed ≡ 0
    → Drains s t
    → All (λ (a : ℕ). a ≤ handler_timeout) t.ages
    → HasReturned t ⊎ ((t.elapsed ≤ handler_timeout) × (t.elapsed < shutdown_grace))
drain-HasReturned s t cancelled run young =
    let first : IsOld s = (rw cancelled (start-IsOld s.ages), inr cancelled) in
    elim (returned_or_young t.elapsed t.waiting t.dispatching t.ages (drain-IsOld run first)
      young) [ inl done ↦ inl done | inr short ↦ inr (short, omega (arith, short)) ]
