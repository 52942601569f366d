-- ===== src/Tests/Grace.antt =====
-- A pool that is cancelled with a message in hand, and sends one more.
use devflow_pipeline.Prelude.{◌+◌, ◌*◌, ◌≤◌, ◌<◌, true, false, ◌⊎◌, ◌≡◌, refl, [], ◌∷◌, arith}
use devflow_pipeline.Go.Time.{second}
use devflow_pipeline.Pool.Grace.{
  Draining, send, return, finish, pass, Drains, here, next, HasReturned, handler_timeout,
  shutdown_grace, drain-HasReturned,
}
use devflow_pipeline.Go.Process.{drained}
use devflow_pipeline.Pool.Select.{Selects, stopped, select-drained}

abbrev cancelled : Draining
cancelled = record { elapsed = 0; dispatching = true; waiting = 2; ages = 3 * second ∷ [] }

-- Ten seconds later the first one ends, and eleven seconds after that the other one is in hand.
abbrev later : Draining
later = record {
  elapsed = 0 + 10 * second + 11 * second;
  dispatching = false;
  waiting = 2;
  ages = (0 + 10 * second + 11 * second) ∷ [];
}

on_time : Drains cancelled later
on_time =
    next
      (next
        (next (next (next here (send 0 1 (3 * second ∷ []))) (return 0 1 (0 ∷ 3 * second ∷ [])))
          (pass 0 1 (10 * second) (0 ∷ 3 * second ∷ [])))
        (finish (0 + 10 * second) 1 (3 * second + 10 * second) false ((0 + 10 * second) ∷ []) []))
      (pass (0 + 10 * second) 2 (11 * second) ((0 + 10 * second) ∷ []))

drain-HasReturned_example :
    HasReturned later ⊎ ((later.elapsed ≤ handler_timeout) × (later.elapsed < shutdown_grace))
drain-HasReturned_example = drain-HasReturned cancelled later refl on_time (omega arith, tt)

-- A pool that is cancelled with a message in hand, which ends ten seconds later.
abbrev with_one : Draining
with_one = record { elapsed = 0; dispatching = true; waiting = 1; ages = 3 * second ∷ [] }

abbrev clean : Selects with_one drained
clean =
    stopped
      (next
        (next (next here (return 0 1 (3 * second ∷ []))) (pass 0 1 (10 * second) (3 * second ∷ [])))
        (finish (0 + 10 * second) 1 (3 * second + 10 * second) false [] []))
      (refl, refl)

select-drained_example : drained ≡ drained
select-drained_example = select-drained with_one drained refl clean tt
