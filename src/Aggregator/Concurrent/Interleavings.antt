-- ===== src/Aggregator/Concurrent/Interleavings.antt =====
-- Several workers on one events table, whatever the order of their calls.
use devflow_pipeline.Prelude.{
  ℕ, ◌==◌, pos, String, Bool, true, ◌≡◌, refl, Option, none, some, [], arith, if◌then◌else◌,
}
use devflow_pipeline.Go.Error.{GoError}
use devflow_pipeline.Go.Call.{Call, Outcome, returned, panicked}
use devflow_pipeline.Go.Float.{Float64}
use devflow_pipeline.Aggregator.UseCase.Defs.{AggregateEvent}
use devflow_pipeline.Aggregator.UseCase.AtMostOnce.{
  IsRepository, Counted, counting, deleting as logged_delete, DistinctIds, AllStored-save,
  AllStored-update, AllStored-delete,
}
use devflow_pipeline.Aggregator.Worker.Defs.{Message}
use devflow_pipeline.Aggregator.Concurrent.Safe.{pending, IsSafe, moved, saved, counted}
use devflow_pipeline.Aggregator.Concurrent.Defs.{
  Phase, idle, saving, updating, deleting, begin, advance, after_save, after_update, after_delete,
  System, take, call, Run, start, more,
}

module _ (fl : Float64) (W : Type 0) (uc : AggregateEvent fl W)
    (delete : String → Call W (Option GoError)) where
  -- A pool over ports that log.
  abbrev pub Pools : Type 0
  Pools = System fl (Counted fl W) (counting fl W uc) (logged_delete fl W delete)

  abbrev pub Runs : ℕ → Pools → Pools → Type 0
  Runs = Run fl (Counted fl W) (counting fl W uc) (logged_delete fl W delete)

  -- A pool that has counted nothing, and whose workers are not about to.
  abbrev pub IsFresh : Pools → Type 0
  IsFresh s = (s.shared.counted ≡ []) × ((i : ℕ) → pending (s.phase i) ≡ none)

module _ (fl : Float64) (W : Type 0) (uc : AggregateEvent fl W) (stored : W → String → Bool)
    (R : IsRepository fl W uc stored) (delete : String → Call W (Option GoError))
    (delete_keeps : (handle : String) (w : W) (id : String)
      → stored w id ≡ true
      → stored (delete handle w).1 id ≡ true)
    (workers : ℕ) where
  abbrev States : Type 0
  States = Pools fl W uc delete

  pending-after_update :
      (msg : Message fl) (o : Outcome (Option GoError)) → pending (after_update fl msg o) ≡ none
  unfolding after_update
  pending-after_update msg (panicked t) = refl
  pending-after_update msg (returned (some e)) = refl
  pending-after_update msg (returned none) = refl

  pending-after_delete : (o : Outcome (Option GoError)) → pending (after_delete fl o) ≡ none
  unfolding after_delete
  pending-after_delete (panicked t) = refl
  pending-after_delete (returned (some e)) = refl
  pending-after_delete (returned none) = refl

  pending-begin : (msg : Message fl) → pending (begin fl msg) ≡ none
  unfolding begin
  pending-begin msg = ground arith

  save_safe :
      (s : Counted fl W) (phase : ℕ → Phase fl) (i : ℕ) (msg : Message fl)
      (o : Outcome (Option GoError))
      → (uc.save_event msg.event s.world).0 ≡ o
      → IsSafe fl W uc stored R s phase
      → IsSafe fl W uc stored R
          (record s { world = (uc.save_event msg.event s.world).1 })
          (λ j. if j == i then after_save fl msg o else phase j)
  unfolding after_save
  save_safe s phase i msg (panicked t) q h =
      moved fl W uc stored R s phase i (after_save fl msg (panicked t)) _ h refl
        (R.save_keeps msg.event s.world)
        (AllStored-save fl W uc stored R msg.event s.world s.counted h.counted_stored)
  save_safe s phase i msg (returned (some err)) q h =
      moved fl W uc stored R s phase i (after_save fl msg (returned (some err))) _ h (ground arith)
        (R.save_keeps msg.event s.world)
        (AllStored-save fl W uc stored R msg.event s.world s.counted h.counted_stored)
  save_safe s phase i msg (returned none) q h =
      let new_row = R.save_fresh msg.event s.world q in
      saved fl W uc stored R s phase i msg _ h new_row.0 new_row.1 (R.save_keeps msg.event s.world)
        (AllStored-save fl W uc stored R msg.event s.world s.counted h.counted_stored)

  abbrev next : Phase fl → Counted fl W → Phase fl × Counted fl W
  next = advance fl (Counted fl W) (counting fl W uc) (logged_delete fl W delete)

  call_safe :
      (s : Counted fl W) (phase : ℕ → Phase fl) (i : ℕ) (p : Phase fl)
      → phase i ≡ p
      → IsSafe fl W uc stored R s phase
      → IsSafe fl W uc stored R (next p s).1 (λ j. if j == i then (next p s).0 else phase j)
  unfolding advance
  call_safe s phase i (idle r) q h =
      moved fl W uc stored R s phase i (idle r) s.world h refl (λ id there. there) h.counted_stored
  call_safe s phase i (saving msg) q h =
      save_safe s phase i msg (uc.save_event msg.event s.world).0 refl h
  call_safe s phase i (updating msg) q h =
      counted fl W uc stored R s phase i msg.event
        (after_update fl msg (uc.update_summary msg.event s.world).0) _ h (rw q refl)
        (pending-after_update msg _) (R.update_keeps msg.event s.world)
        (AllStored-update fl W uc stored R msg.event s.world s.counted h.counted_stored)
  call_safe s phase i (deleting msg) q h =
      moved fl W uc stored R s phase i (after_delete fl (delete msg.receipt_handle s.world).0) _ h
        (pending-after_delete _) (delete_keeps msg.receipt_handle s.world)
        (AllStored-delete fl W uc stored R delete delete_keeps (pos workers) msg.receipt_handle
          s.world s.counted h.counted_stored)

  run_safe :
      (s t : States)
      → Runs fl W uc delete workers s t
      → IsSafe fl W uc stored R s.shared s.phase
      → IsSafe fl W uc stored R t.shared t.phase
  run_safe _ _ (start s) h = h
  run_safe _ _ (more s t _ before (take _ i r msg below q)) h =
      let safe = run_safe s t before h in
      moved fl W uc stored R t.shared t.phase i (begin fl msg) t.shared.world safe
        (pending-begin msg) (λ id there. there) safe.counted_stored
  run_safe _ _ (more s t _ before (call _ i below)) h =
      call_safe t.shared t.phase i (t.phase i) refl (run_safe s t before h)

  -- However the calls of several workers interleave, whatever messages they take, and whatever the
  -- ports answer within their contract, if Delete removes no row: from a pool that is fresh,
  -- UpdateSummary is called at most once for each event id.
  pub run-DistinctIds :
      (s t : States)
      → Runs fl W uc delete workers s t
      → IsFresh fl W uc delete s
      → DistinctIds fl W t.shared.counted
  run-DistinctIds s t runs (fresh_start, all_idle) =
      (run_safe s t runs (record {
        counted_stored = rw fresh_start tt;
        distinct = rw fresh_start tt;
        pending_stored = λ i id e. absurd (cc (all_idle i, e));
        pending_fresh = λ i id e. absurd (cc (all_idle i, e));
        pending_alone = λ i j id e e'. absurd (cc (all_idle i, e));
      })).distinct
