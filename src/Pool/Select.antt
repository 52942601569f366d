-- ===== src/Pool/Select.antt =====
-- The last `select` of `run` in services/*/cmd/*/main.go: the return of the pool against the timer of
-- the grace period.
use devflow_pipeline.Prelude.{ℕ, ◌+◌, ◌≤◌, ◌<◌, ◌≡◌, inl, inr, refl, List, [], ◌∷◌, map, All, arith}
use devflow_pipeline.Go.Process.{Drain, drained, grace_exceeded}
use devflow_pipeline.Pool.Grace.{
  Draining, Step, send, return, finish, pass, Drains, next, HasReturned, handler_timeout,
  shutdown_grace, drain-HasReturned,
}

-- From the cancellation on: the pool has returned, or the timer, which starts at the cancellation or
-- later, fires in a step before which the pool has not returned. Where both come at once, `select`
-- may take either.
pub data Selects (s : Draining) : Drain → Type 0 where
  stopped : {t : Draining} → Drains s t → HasReturned t → Selects s drained
  exceeded :
      {t u : Draining}
      → Drains s t
      → ¬ HasReturned t
      → Step t u
      → shutdown_grace ≤ u.elapsed
      → Selects s grace_exceeded

-- No message in hand is older than the timeout of its handler.
abbrev pub IsYoung : Draining → Type 0
IsYoung s = All (λ (a : ℕ). a ≤ handler_timeout) s.ages

-- All handlers on the way end within their timeout.
abbrev pub Keeps : {s : Draining} {d : Drain} → Selects s d → Type 0
Keeps (stopped {t} run done) = IsYoung t
Keeps (exceeded {t} {u} run running step late) = IsYoung t × IsYoung u

map-nothing : (d : ℕ) (ages : List ℕ) → map (λ a. a + d) ages ≡ [] → ages ≡ []
map-nothing d [] h = refl
map-nothing d (a ∷ ages) h = absurd (cc h)

-- No pool returns while time passes.
step-HasReturned :
    {t u : Draining} → Step t u → t.elapsed < u.elapsed → HasReturned u → HasReturned t
step-HasReturned (send t k ages) later done = absurd (omega (arith, later))
step-HasReturned (return t k ages) later done = absurd (omega (arith, later))
step-HasReturned (finish t k age dispatching before behind) later done =
    absurd (omega (arith, later))
step-HasReturned (pass t k d ages) later done = (refl, map-nothing d ages done.1)

exceeded_late :
    (s t u : Draining)
    → s.elapsed ≡ 0
    → Drains s t
    → ¬ HasReturned t
    → Step t u
    → shutdown_grace ≤ u.elapsed
    → IsYoung t
    → IsYoung u
    → ⊥
exceeded_late s t u cancelled run running step late young_before young =
    elim (drain-HasReturned s t cancelled run young_before) [
      | inl done ↦ running done
      | inr (short, in_grace) ↦ elim (drain-HasReturned s u cancelled (next run step) young) [
        | inl done ↦ running (step-HasReturned step (omega (arith, in_grace, late)) done)
        | inr (short', in_grace') ↦ omega (arith, in_grace', late)
      ]
    ]

-- With handlers that end within their timeout, `run` sees the pool return.
pub select-drained :
    (s : Draining) (d : Drain) → s.elapsed ≡ 0 → (sel : Selects s d) → Keeps sel → d ≡ drained
select-drained s d cancelled (stopped run done) young = refl
select-drained s d cancelled (exceeded {t} {u} run running step late) (before, behind) =
    absurd (exceeded_late s t u cancelled run running step late before behind)
