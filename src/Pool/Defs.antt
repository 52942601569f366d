-- ===== src/Pool/Defs.antt =====
-- The dispatcher of a worker pool: `dispatch` and `jitter`, which
-- services/processor/internal/infra/worker/pool.go and its twin in services/aggregator share
-- word for word. `Message` is the type of a parsed message, `Broken` that of one that did not parse.
use devflow_pipeline.Prelude.{
  ℕ, zero, suc, ◌+◌, ◌*◌, ◌/◌, Bool, true, false, Option, none, some, List, [], ◌∷◌, ◌++◌, ltb, leb,
  if◌then◌else◌,
}
use devflow_pipeline.Go.Error.{GoError}
use devflow_pipeline.Go.Time.{second}

abbrev pub receive_backoff_initial : ℕ
receive_backoff_initial = second

abbrev pub receive_backoff_max : ℕ
receive_backoff_max = 30 * second

-- `jitter`: `int63n n` is what `rand.Int63n(n)` returns.
unfoldable pub jitter : (ℕ → ℕ) → ℕ → ℕ
jitter int63n d = if leb d 0 then 0 else int63n (d / 2)

-- `backoff *= 2; if backoff > receiveBackoffMax { backoff = receiveBackoffMax }`
unfoldable pub next_backoff : ℕ → ℕ
next_backoff backoff =
    if ltb receive_backoff_max (backoff * 2) then receive_backoff_max else backoff * 2

module _ (Message Broken : Type 0) where
  pub data Received : Type 0 where
    failed : GoError → Received
    received : List Message → List Broken → Received

  -- What one turn of the loop meets: whether `ctx` is cancelled at each point where the code looks,
  -- what Receive returns, the random source, and how many messages the workers take before a
  -- cancellation (`none` if they take all).
  pub record Round : Type 0 where
    pub done_before : Bool
    pub polled : Received
    pub done_after_error : Bool
    pub int63n : ℕ → ℕ
    pub done_in_wait : Bool
    pub taken : Option ℕ

  -- What the loop has done: the messages handed to the workers, the waits, the messages left for
  -- redrive, and whether it has returned.
  pub record Dispatched : Type 0 where
    pub jobs : List Message
    pub waits : List ℕ
    pub left : List Broken
    pub stopped : Bool

  abbrev pub idle : Bool → Dispatched
  idle stopped = record { jobs = []; waits = []; left = []; stopped = stopped }

  abbrev pub waiting : ℕ → Dispatched → Dispatched
  waiting wait rest = record rest { waits = wait ∷ rest.waits }

  abbrev pub sending : List Message → List Broken → Dispatched → Dispatched
  sending msgs broken rest = record rest { jobs = msgs ++ rest.jobs; left = broken ++ rest.left }

  -- The loop `for _, m := range msgs { select { case <-ctx.Done(): return; case jobs <- m: } }`: the
  -- messages sent, and whether it returned by the cancellation.
  unfoldable pub feed : Option ℕ → List Message → List Message × Bool
  feed none msgs = (msgs, false)
  feed (some k) [] = ([], false)
  feed (some zero) (m ∷ msgs) = ([], true)
  feed (some (suc k)) (m ∷ msgs) = let (sent, done) = feed (some k) msgs in (m ∷ sent, done)

  -- `dispatch`, over the rounds that it meets.
  unfoldable pub dispatch : ℕ → List Round → Dispatched
  unfolding feed jitter next_backoff
  dispatch backoff [] = idle false
  dispatch backoff (r ∷ rounds) = elim r.done_before [
    | true ↦ idle true
    | false ↦ elim r.polled [
      | failed err ↦ elim r.done_after_error [
        | true ↦ idle true
        | false ↦ elim r.done_in_wait [
          | true ↦ waiting (backoff + jitter r.int63n backoff) (idle true)
          | false ↦
              waiting (backoff + jitter r.int63n backoff) (dispatch (next_backoff backoff) rounds)
        ]
      ]
      | received msgs broken ↦
          let (sent, done) = feed r.taken msgs in
          elim done [
            | true ↦ sending sent broken (idle true)
            | false ↦ sending sent broken (dispatch receive_backoff_initial rounds)
          ]
    ]
  ]
