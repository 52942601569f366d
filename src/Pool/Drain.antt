-- ===== src/Pool/Drain.antt =====
-- `Pool.Run` of services/*/internal/infra/worker/pool.go: the workers, the channel without a buffer, its
-- close when the dispatcher has returned, and the wait for the workers.
use devflow_pipeline.Prelude.{
  ℕ, zero, suc, ◌+◌, ◌*◌, ◌≤◌, Bool, true, false, ◌≡◌, ◌⊎◌, inl, inr, refl, List, [], ◌∷◌, ◌++◌,
  length, arith, if◌then◌else◌,
}

module _ (Message : Type 0) where
  -- The messages that the dispatcher has yet to send before it returns, the number of workers that
  -- wait on the channel, the messages in hand, those whose `runOne` has returned, and whether the
  -- channel is closed.
  pub record Running : Type 0 where
    pub to_send : List Message
    pub waiting : ℕ
    pub in_hand : List Message
    pub finished : List Message
    pub closed : Bool

  -- `jobs <- m` with a worker that waits; the end of a `runOne`; and `close(jobs)`.
  pub data Step : Running → Running → Type 0 where
    send :
        (m : Message) (ms in_hand finished : List Message) (k : ℕ)
        → Step
            (record {
              to_send = m ∷ ms;
              waiting = suc k;
              in_hand = in_hand;
              finished = finished;
              closed = false;
            })
            (record {
              to_send = ms;
              waiting = k;
              in_hand = m ∷ in_hand;
              finished = finished;
              closed = false;
            })
    finish :
        (to_send before : List Message) (m : Message) (behind finished : List Message) (k : ℕ)
        (closed : Bool)
        → Step
            (record {
              to_send = to_send;
              waiting = k;
              in_hand = before ++ m ∷ behind;
              finished = finished;
              closed = closed;
            })
            (record {
              to_send = to_send;
              waiting = suc k;
              in_hand = before ++ behind;
              finished = m ∷ finished;
              closed = closed;
            })
    close :
        (in_hand finished : List Message) (k : ℕ)
        → Step
            (record {
              to_send = [];
              waiting = k;
              in_hand = in_hand;
              finished = finished;
              closed = false;
            })
            (record {
              to_send = [];
              waiting = k;
              in_hand = in_hand;
              finished = finished;
              closed = true;
            })

  -- The start of Run with the messages that the dispatcher will send.
  abbrev pub started : ℕ → List Message → Running
  started workers jobs = record {
    to_send = jobs;
    waiting = workers;
    in_hand = [];
    finished = [];
    closed = false;
  }

  -- `wg.Wait()` returns: the channel is closed and no worker has a message in hand.
  abbrev pub HasReturned : Running → Type 0
  HasReturned s = (s.closed ≡ true) × (s.in_hand ≡ [])

  -- So many steps.
  pub data Steps : ℕ → Running → Running → Type 0 where
    here : (s : Running) → Steps 0 s s
    then_step : (n : ℕ) (s t u : Running) → Steps n s t → Step t u → Steps (suc n) s u

  -- How often a message that `p` tells from the others is in a list.
  pub count : (Message → Bool) → List Message → ℕ
  count p [] = 0
  count p (m ∷ ms) = if p m then suc (count p ms) else count p ms

  count-++ :
      (p : Message → Bool) (xs ys : List Message) → count p (xs ++ ys) ≡ count p xs + count p ys
  unfolding count
  count-++ p [] ys = omega arith
  count-++ p (x ∷ xs) ys = ground (arith, count-++ p xs ys)

  length-++ : (xs ys : List Message) → length (xs ++ ys) ≡ length xs + length ys
  length-++ [] ys = omega arith
  length-++ (x ∷ xs) ys = ground (arith, length-++ xs ys)

  -- What is left to do.
  abbrev work : Running → ℕ
  work s = 2 * length s.to_send + length s.in_hand + (if s.closed then 0 else 1)

  abbrev all_count : (Message → Bool) → Running → ℕ
  all_count p s = count p s.to_send + count p s.in_hand + count p s.finished

  abbrev hands : Running → ℕ
  hands s = s.waiting + length s.in_hand

  one_less : (s t : Running) → Step s t → (work s ≡ suc (work t)) × (hands s ≡ hands t)
  one_less _ _ (send m ms in_hand finished k) = (ground arith, ground arith)
  one_less _ _ (finish to_send before m behind finished k closed) = (
    ground (arith, length-++ before (m ∷ behind), length-++ before behind),
    ground (arith, length-++ before (m ∷ behind), length-++ before behind),
  )
  one_less _ _ (close in_hand finished k) = (ground arith, ground arith)

  same_messages : (p : Message → Bool) (s t : Running) → Step s t → all_count p s ≡ all_count p t
  unfolding count
  same_messages p _ _ (send m ms in_hand finished k) = ground arith
  same_messages p _ _ (finish to_send before m behind finished k closed) =
      ground (arith, count-++ p before (m ∷ behind), count-++ p before behind)
  same_messages p _ _ (close in_hand finished k) = refl

  -- The channel is closed after the last send.
  abbrev IsSent : Running → Type 0
  IsSent s = s.closed ≡ true → s.to_send ≡ []

  still-IsSent : (s t : Running) → Step s t → IsSent s → IsSent t
  still-IsSent _ _ (send m ms in_hand finished k) h = λ e. absurd (cc e)
  still-IsSent _ _ (finish to_send before m behind finished k closed) h = h
  still-IsSent _ _ (close in_hand finished k) h = λ e. refl

  along_run :
      (n : ℕ) (s t : Running)
      → Steps n s t
      → IsSent s
      → (work s ≡ n + work t)
        × (hands s ≡ hands t)
        × ((p : Message → Bool) → all_count p s ≡ all_count p t)
        × IsSent t
  along_run _ _ _ (here s) h = (omega arith, refl, λ p. refl, h)
  along_run _ _ _ (then_step n s t u before step) h =
      let (left, workers, same, sent) = along_run n s t before h in
      let now = one_less t u step in
      (
        omega (arith, left, now.0),
        omega (arith, workers, now.1),
        λ p. omega (arith, same p, same_messages p t u step),
        still-IsSent t u step sent,
      )

  go_on :
      (to_send in_hand finished : List Message) (waiting k : ℕ) (closed : Bool)
      → waiting + length in_hand ≡ suc k
      → let s : Running = record {
        to_send = to_send;
        waiting = waiting;
        in_hand = in_hand;
        finished = finished;
        closed = closed;
      } in
        HasReturned s ⊎ ((t : Running) × Step s t)
  go_on to_send (m ∷ behind) finished waiting k closed h =
      inr (_, finish to_send [] m behind finished waiting closed)
  go_on to_send [] finished waiting k true h = inl (refl, refl)
  go_on [] [] finished waiting k false h = inr (_, close [] finished waiting)
  go_on (m ∷ ms) [] finished zero k false h = absurd (omega (arith, h))
  go_on (m ∷ ms) [] finished (suc waiting) k false h = inr (_, send m ms [] finished waiting)

  -- A pool with at least one worker drains: wherever a run of it stands, it has returned or takes
  -- another step, and it has taken at most two steps for each message and one more.
  pub run_drains :
      (k n : ℕ) (jobs : List Message) (s : Running)
      → Steps n (started (suc k) jobs) s
      → (HasReturned s ⊎ ((t : Running) × Step s t)) × (n ≤ 2 * length jobs + 1)
  run_drains k n jobs s steps =
      let (left, workers, same, sent) =
        along_run n (started (suc k) jobs) s steps (λ e. absurd (cc e)) in
      (
        go_on s.to_send s.in_hand s.finished s.waiting k s.closed (omega (arith, workers)),
        omega (arith, left),
      )

  -- When Run has returned, each message that the dispatcher sent is finished as often as it was sent,
  -- and no other is.
  pub run_finishes :
      (workers n : ℕ) (jobs : List Message) (s : Running)
      → Steps n (started workers jobs) s
      → HasReturned s
      → (p : Message → Bool) → count p s.finished ≡ count p jobs
  unfolding count
  run_finishes workers n jobs s steps returned p =
      let (left, hands, same, sent) =
        along_run n (started workers jobs) s steps (λ e. absurd (cc e)) in
      ground (arith, same p, sent returned.0, returned.1)
