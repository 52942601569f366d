-- ===== src/Processor/Worker/Published.antt =====
-- What the log of a processor's worker says of the events that it published.
use devflow_pipeline.Prelude.{
  String, Bool, ◌≡◌, ◌≢◌, ◌⊎◌, inl, inr, refl, List, [], ◌∷◌, ◌++◌, All, All-append, All-split,
  All-imp,
}
use devflow_pipeline.Go.Time.{Time}
use devflow_pipeline.Go.Float.{Float64}
use devflow_pipeline.Report.{Report, status_ok}
use devflow_pipeline.Processor.Domain.Event.{ProcessedEvent}
use devflow_pipeline.Processor.Domain.Rules.{IsAcceptable}
use devflow_pipeline.Processor.UseCase.{enrich}
use devflow_pipeline.Processor.Queue.Defs.{Message}
use devflow_pipeline.Processor.Worker.Acks.{
  Action, published, deleted, IsHandled, silent, acked, IsLog, log_end, log_next,
}

module _ (fl : Float64) (W : Type 0) where
  -- The events that were published, in order.
  abbrev pub publications : List (Action fl W) → List (ProcessedEvent fl)
  publications [] = []
  publications (published e ∷ log) = e ∷ publications log
  publications (deleted handle ∷ log) = publications log

  publications-append :
      (log later : List (Action fl W))
      → publications (log ++ later) ≡ publications log ++ publications later
  publications-append [] later = refl
  publications-append (published e ∷ log) later = rw (publications-append log later) refl
  publications-append (deleted handle ∷ log) later = publications-append log later

  module _ (uuid_parse : String → Bool) (id : String) where
    -- The enriched form of an event that one of the messages holds and that meets every rule.
    abbrev pub IsSource : List (Message fl) → ProcessedEvent fl → Type 0
    IsSource [] e = ⊥
    IsSource (msg ∷ jobs) e =
        ((now : Time) × IsAcceptable fl uuid_parse msg.event now × (e ≡ enrich fl id now msg.event))
        ⊎ IsSource jobs e

    handled-sources :
        (msg : Message fl) (r : Report) (added : List (Action fl W)) (jobs : List (Message fl))
        → IsHandled fl W uuid_parse id msg r added
        → All (IsSource (msg ∷ jobs)) (publications added)
    handled-sources msg r added jobs (silent n same) = rw same tt
    handled-sources msg r added jobs (acked now ok same) = rw same (inl (now, ok, refl), tt)

    -- Only enriched forms of acceptable events are published.
    pub log-sources :
        (jobs : List (Message fl)) (rs : List Report) (log : List (Action fl W))
        → IsLog fl W uuid_parse id jobs rs log
        → All (IsSource jobs) (publications log)
    log-sources _ _ _ log_end = tt
    log-sources _ _ _ (log_next {msg} {jobs} {r} {rs} {added} {later} handled rest) =
        rw (publications-append added later) (
          All-append (IsSource (msg ∷ jobs)) (publications added) (publications later)
            (handled-sources msg r added jobs handled)
            (All-imp (IsSource jobs) (IsSource (msg ∷ jobs)) (λ e h. inr h) (publications later)
              (log-sources jobs rs later rest)))

    -- A message that was reported as a success has its event's id among those of `P`.
    abbrev pub AreSettled : (String → Type 0) → List (Message fl) → List Report → Type 0
    AreSettled P [] [] = Unit
    AreSettled P [] (r ∷ rs) = ⊥
    AreSettled P (msg ∷ jobs) [] = ⊥
    AreSettled P (msg ∷ jobs) (r ∷ rs) =
        ((r.status ≢ status_ok) ⊎ P msg.event.event_id) × AreSettled P jobs rs

    module _ (P : String → Type 0) where
      handled_settled :
          (msg : Message fl) (r : Report) (added : List (Action fl W))
          → IsHandled fl W uuid_parse id msg r added
          → All (λ (e : ProcessedEvent fl). P e.raw.event_id) (publications added)
          → (r.status ≢ status_ok) ⊎ P msg.event.event_id
      unfolding enrich
      handled_settled msg r added (silent n same) h = inl n
      handled_settled msg r added (acked now ok same) h = inr (rw same at h).0

      -- If the ids of all that is published are among those of `P`, every message is settled.
      pub log-AreSettled :
          (jobs : List (Message fl)) (rs : List Report) (log : List (Action fl W))
          → IsLog fl W uuid_parse id jobs rs log
          → All (λ (e : ProcessedEvent fl). P e.raw.event_id) (publications log)
          → AreSettled P jobs rs
      log-AreSettled _ _ _ log_end h = tt
      log-AreSettled _ _ _ (log_next {msg} {jobs} {r} {rs} {added} {later} handled rest) h =
          let (now, then) =
            All-split (λ (e : ProcessedEvent fl). P e.raw.event_id) (publications added)
              (publications later) (rw (publications-append added later) at h) in
          (handled_settled msg r added handled now, log-AreSettled jobs rs later rest then)
