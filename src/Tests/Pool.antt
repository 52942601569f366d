-- ===== src/Tests/Pool.antt =====
-- A poll that fails twice, a batch, and a cancellation in the middle of the next batch.
use devflow_pipeline.Prelude.{
  ◌⊎◌, true, ◌*◌, ◌+◌, length, ◌≤◌, ◌==◌, ℕ, ◌-◌, ◌≡◌, refl, true, false, Option, none, some, List,
  [], ◌∷◌, All, arith, length,
}
use devflow_pipeline.Go.Error.{errors_new}
use devflow_pipeline.Pool.Defs.{
  Received, failed, received, Round, dispatch, receive_backoff_initial,
}
use devflow_pipeline.Pool.Schedule.{InRange, IsWait, dispatch-waits}
use devflow_pipeline.Pool.Outage.{IsOutage, Follows, dispatch-waits_outage}
use devflow_pipeline.Pool.Drain.{
  Running, Step, send, finish, close, started, HasReturned, Steps, here, then_step, count,
  run_drains, run_finishes,
}
use devflow_pipeline.Pool.Delivery.{IsPrefix, all_received, dispatch-jobs}

abbrev lowest : ℕ → ℕ
lowest n = n - 1

lowest-InRange : InRange lowest
lowest-InRange n h = omega arith

abbrev turn : Received ℕ ℕ → Option ℕ → Round ℕ ℕ
turn polled taken = record {
  done_before = false;
  polled = polled;
  done_after_error = false;
  int63n = lowest;
  done_in_wait = false;
  taken = taken;
}

abbrev down : Round ℕ ℕ
down = turn (failed (errors_new "connection refused")) none

abbrev script : List (Round ℕ ℕ)
script =
    down
    ∷ down
    ∷ turn (received (1 ∷ 2 ∷ []) (7 ∷ [])) none
    ∷ down
    ∷ turn (received (3 ∷ 4 ∷ 5 ∷ []) []) (some 1)
    ∷ down
    ∷ []

script_run : dispatch ℕ ℕ receive_backoff_initial script ≡ record {
  jobs = 1 ∷ 2 ∷ 3 ∷ [];
  waits = 1_499_999_999 ∷ 2_999_999_999 ∷ 1_499_999_999 ∷ [];
  left = 7 ∷ [];
  stopped = true;
}
unfolding dispatch
script_run = refl

script_ranges : All (λ (r : Round ℕ ℕ). InRange r.int63n) script
script_ranges = (
  lowest-InRange,
  (lowest-InRange, (lowest-InRange, (lowest-InRange, (lowest-InRange, (lowest-InRange, tt))))),
)

dispatch-waits_example : All IsWait (dispatch ℕ ℕ receive_backoff_initial script).waits
dispatch-waits_example = dispatch-waits ℕ ℕ script script_ranges

down-IsOutage : IsOutage ℕ ℕ down
down-IsOutage = record {
  live = refl;
  error = errors_new "connection refused";
  fails = refl;
  live_after = refl;
  slept = refl;
  in_range = lowest-InRange;
}

dispatch-waits_outage_example :
    let d = dispatch ℕ ℕ receive_backoff_initial (down ∷ down ∷ []) in
    (length d.waits ≡ 2) × Follows 0 d.waits
dispatch-waits_outage_example =
    dispatch-waits_outage ℕ ℕ (down ∷ down ∷ []) (down-IsOutage, (down-IsOutage, tt))

dispatch-jobs_example :
    let d = dispatch ℕ ℕ receive_backoff_initial script in
    IsPrefix d.jobs (all_received ℕ ℕ script)
    × ((d.stopped ≡ true) ⊎ (d.jobs ≡ all_received ℕ ℕ script))
dispatch-jobs_example = dispatch-jobs ℕ ℕ script

abbrev two : List ℕ
two = 7 ∷ 8 ∷ []

-- One worker and two messages.
abbrev drained : Running ℕ
drained = record { to_send = []; waiting = 1; in_hand = []; finished = 8 ∷ 7 ∷ []; closed = true }

draining : Steps ℕ 5 (started ℕ 1 two) drained
draining =
    then_step 4 _ _ _
      (then_step 3 _ _ _
        (then_step 2 _ _ _
          (then_step 1 _ _ _ (then_step 0 _ _ _ (here (started ℕ 1 two)) (send 7 (8 ∷ []) [] [] 0))
            (finish (8 ∷ []) [] 7 [] [] 0 false))
          (send 8 [] [] (7 ∷ []) 0))
        (close (8 ∷ []) (7 ∷ []) 0))
      (finish [] [] 8 [] (7 ∷ []) 0 true)

run_drains_example :
    (HasReturned ℕ drained ⊎ ((t : Running ℕ) × Step ℕ drained t)) × (5 ≤ 2 * length two + 1)
run_drains_example = run_drains ℕ 0 5 two drained draining

run_finishes_example : count ℕ (λ n. n == 7) drained.finished ≡ count ℕ (λ n. n == 7) two
run_finishes_example = run_finishes ℕ 1 5 two drained draining (refl, refl) (λ n. n == 7)
