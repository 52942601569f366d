-- ===== src/Processor/Worker/Acks.antt =====
-- What the processor publishes and acknowledges, over any ports.
use mathlib.Core.List.{append-nil, append_assoc}
use devflow_pipeline.Prelude.{
  String, Bool, ◌≡◌, ◌≢◌, ◌⊎◌, inl, inr, refl, sym, ap, ◌∙◌, Option, none, some, List, [], ◌∷◌,
  ◌++◌, arith, ℤ,
}
use devflow_pipeline.Go.Error.{GoError}
use devflow_pipeline.Go.Call.{Call, Outcome, returned, panicked}
use devflow_pipeline.Go.Time.{Time}
use devflow_pipeline.Go.Float.{Float64}
use devflow_pipeline.Report.{Report, status_ok}
use devflow_pipeline.Processor.Domain.Event.{ProcessedEvent, validate}
use devflow_pipeline.Processor.Domain.Rules.{IsAcceptable, validate-none_iff}
use devflow_pipeline.Processor.Domain.Stability.{validate-is_validation}
use devflow_pipeline.Processor.UseCase.{execute, enrich}
use devflow_pipeline.Processor.Queue.Defs.{Message}
use devflow_pipeline.Processor.Worker.Defs.{Pool, new, handle, run_one, worker_loop}

module _ (fl : Float64) (W : Type 0) where
  -- A successful publication, and an acknowledgement that was asked for.
  pub data Action : Type 0 where
    published : ProcessedEvent fl → Action
    deleted : String → Action

  -- The ports over a state `W` that is not known, with a log of what the processor did with them.
  pub record Ports : Type 0 where
    pub publish : ProcessedEvent fl → Call W (Option GoError)
    pub delete : String → Call W (Option GoError)
    pub clock : Call W Time

  pub record Logged : Type 0 where
    pub world : W
    pub log : List Action

  abbrev read_clock : Call W Time → Call Logged Time
  read_clock m s = let (r, w) = m s.world in (r, record s { world = w })

  abbrev on_success :
      Action → List Action → Outcome (Option GoError) × W → Outcome (Option GoError) × Logged
  on_success a log (returned none, w) = (returned none, record { world = w; log = log ++ (a ∷ []) })
  on_success a log (returned (some e), w) = (returned (some e), record { world = w; log = log })
  on_success a log (panicked t, w) = (panicked t, record { world = w; log = log })

  abbrev logged_publish : Ports → ProcessedEvent fl → Call Logged (Option GoError)
  logged_publish p event s = on_success (published event) s.log (p.publish event s.world)

  abbrev logged_delete : Ports → String → Call Logged (Option GoError)
  logged_delete p handle s =
      let (r, w) = p.delete handle s.world in
      (r, record { world = w; log = s.log ++ (deleted handle ∷ []) })

  -- The processor's worker pool over logged ports, wired as `run` of cmd/processor/main.go does.
  unfoldable pub processor : (String → Bool) → Ports → String → ℤ → Pool fl Logged
  unfolding new
  processor uuid_parse p id workers =
      new fl Logged (logged_delete p)
        (execute fl Logged uuid_parse
          (record { publish = logged_publish p; clock = read_clock p.clock; processor_id = id }))
        workers

  -- What one message adds to the log, beside its report. Nothing, and then the report is not "Ok";
  -- or the publication of the enriched event followed by the message's acknowledgement.
  pub data IsHandled (uuid_parse : String → Bool) (id : String) (msg : Message fl) (r : Report)
      (added : List Action) : Type 0 where
    silent : r.status ≢ status_ok → added ≡ [] → IsHandled uuid_parse id msg r added
    acked :
        (now : Time)
        → IsAcceptable fl uuid_parse msg.event now
        → added ≡ published (enrich fl id now msg.event) ∷ deleted msg.receipt_handle ∷ []
        → IsHandled uuid_parse id msg r added

  module _ (uuid_parse : String → Bool) (p : Ports) (id : String) (workers : ℤ) (msg : Message fl)
      (s : Logged) where
    abbrev result : Report × Logged
    result = run_one fl Logged (processor uuid_parse p id workers) msg s

    run_at :
        (now : Time) (w : W)
        → p.clock s.world ≡ (returned now, w)
        → ((result.1.log ≡ s.log) × (result.0.status ≢ status_ok))
          ⊎ ((validate fl uuid_parse msg.event now ≡ none)
              × (result.1.log
                  ≡ s.log
                    ++ (published (enrich fl id now msg.event) ∷ [])
                    ++ (deleted msg.receipt_handle ∷ [])))
    unfolding run_one processor execute
    run_at now w e = ground (arith, e)

    run_panicked :
        (text : String) (w : W)
        → p.clock s.world ≡ (panicked text, w)
        → (result.1.log ≡ s.log) × (result.0.status ≢ status_ok)
    unfolding run_one processor execute
    run_panicked text w e = ground (arith, e)

    run_read :
        (o : Outcome Time) (w : W)
        → p.clock s.world ≡ (o, w)
        → (added : List Action) × (result.1.log ≡ s.log ++ added)
          × IsHandled uuid_parse id msg result.0 added
    run_read (panicked text) w e =
        let h = run_panicked text w e in ([], h.0 ∙ sym (append-nil s.log), silent h.1 refl)
    run_read (returned now) w e = elim (run_at now w e) [
      | inl h ↦ ([], h.0 ∙ sym (append-nil s.log), silent h.1 refl)
      | inr h ↦ (
        published (enrich fl id now msg.event) ∷ deleted msg.receipt_handle ∷ [],
        h.1 ∙ append_assoc s.log _ _,
        acked now ((validate-none_iff fl uuid_parse msg.event now).0 h.0) refl,
      )
    ]

    -- One message, whatever the ports answer, panics included: the worker either publishes nothing and
    -- acknowledges nothing, and then does not report success; or it publishes one event, the enriched
    -- form of the message's, which meets every rule at its processing time, and then acknowledges
    -- that message and no other.
    pub run_one-IsHandled :
        (added : List Action) × (result.1.log ≡ s.log ++ added)
        × IsHandled uuid_parse id msg result.0 added
    run_one-IsHandled = run_read (p.clock s.world).0 (p.clock s.world).1 refl

    -- An event that meets every rule, whose publication succeeds, is published and acknowledged.
    pub run_one-publishes :
        (now : Time) (w w' : W)
        → p.clock s.world ≡ (returned now, w)
        → IsAcceptable fl uuid_parse msg.event now
        → p.publish (enrich fl id now msg.event) w ≡ (returned none, w')
        → result.1.log
          ≡ s.log
            ++ (published (enrich fl id now msg.event) ∷ [])
            ++ (deleted msg.receipt_handle ∷ [])
    unfolding run_one processor execute
    run_one-publishes now w w' e a sent =
        ground (arith, e, (validate-none_iff fl uuid_parse msg.event now).1 a, sent)

    -- An event that breaks a rule changes nothing but what reading the clock changes, and is reported
    -- as a validation error.
    pub run_one-rejects :
        (now : Time) (w : W) (err : GoError)
        → p.clock s.world ≡ (returned now, w)
        → validate fl uuid_parse msg.event now ≡ some err
        → (result.1 ≡ record { world = w; log = s.log })
          × (result.0.rejection_kind ≡ some "validation")
    unfolding run_one processor execute
    run_one-rejects now w err e bad =
        ground (arith, e, bad, validate-is_validation fl uuid_parse msg.event now err bad)

  -- The log of a worker: the messages that it took, in order, each with what it added.
  pub data IsLog (uuid_parse : String → Bool) (id : String)
      : List (Message fl) → List Report → List Action → Type 0 where
    log_end : IsLog uuid_parse id [] [] []
    log_next :
        {msg : Message fl} {jobs : List (Message fl)} {r : Report} {rs : List Report}
        {added later : List Action}
        → IsHandled uuid_parse id msg r added
        → IsLog uuid_parse id jobs rs later
        → IsLog uuid_parse id (msg ∷ jobs) (r ∷ rs) (added ++ later)

  -- A worker reports every message that it takes, whatever the ports answer, and what it publishes and
  -- acknowledges is, message after message in order, nothing or the publication of the enriched event
  -- (one that meets every rule) followed by the acknowledgement of that message.
  pub worker_loop-IsLog :
      (uuid_parse : String → Bool) (p : Ports) (id : String) (workers : ℤ)
      (jobs : List (Message fl)) (s : Logged)
      → let (reports, s') = worker_loop fl Logged (processor uuid_parse p id workers) jobs s in
        (added : List Action) × (s'.log ≡ s.log ++ added) × IsLog uuid_parse id jobs reports added
  unfolding worker_loop
  worker_loop-IsLog uuid_parse p id workers [] s = ([], sym (append-nil s.log), log_end)
  worker_loop-IsLog uuid_parse p id workers (msg ∷ jobs) s =
      let (added, e, handled) = run_one-IsHandled uuid_parse p id workers msg s in
      let (later, e', rest) =
        worker_loop-IsLog uuid_parse p id workers jobs
          (run_one fl Logged (processor uuid_parse p id workers) msg s).1 in
      (
        added ++ later,
        e' ∙ ap (λ (l : List Action). l ++ later) e ∙ append_assoc s.log added later,
        log_next handled rest,
      )
