-- ===== src/Pool/Delivery.antt =====
-- What `dispatch` hands to the workers.
use mathlib.Core.List.{append-nil}
use devflow_pipeline.Prelude.{
  ◌⊎◌, inl, inr, Bool-cases, ℕ, zero, suc, ◌≡◌, refl, ap, Bool, true, false, Bool-cases, inl, inr,
  Option, none, some, List, [], ◌∷◌, ◌++◌, arith,
}
use devflow_pipeline.Pool.Defs.{
  Received, failed, received, Round, feed, dispatch, next_backoff, receive_backoff_initial,
}

-- The first list begins the second.
abbrev pub IsPrefix : {A : Type 0} → List A → List A → Type 0
IsPrefix [] ys = Unit
IsPrefix (x ∷ xs) [] = ⊥
IsPrefix (x ∷ xs) (y ∷ ys) = (x ≡ y) × IsPrefix xs ys

module _ {A : Type 0} where
  IsPrefix-refl : (xs : List A) → IsPrefix xs xs
  IsPrefix-refl [] = tt
  IsPrefix-refl (x ∷ xs) = (refl, IsPrefix-refl xs)

  IsPrefix-append_right : (xs ys zs : List A) → IsPrefix xs ys → IsPrefix xs (ys ++ zs)
  IsPrefix-append_right [] ys zs h = tt
  IsPrefix-append_right (x ∷ xs) [] zs h = absurd h
  IsPrefix-append_right (x ∷ xs) (y ∷ ys) zs h = (h.0, IsPrefix-append_right xs ys zs h.1)

  IsPrefix-append_left : (xs ys zs : List A) → IsPrefix ys zs → IsPrefix (xs ++ ys) (xs ++ zs)
  IsPrefix-append_left [] ys zs h = h
  IsPrefix-append_left (x ∷ xs) ys zs h = (refl, IsPrefix-append_left xs ys zs h)

module _ (Message Broken : Type 0) where
  -- Every message that the polls return, in order.
  unfoldable pub all_received : List (Round Message Broken) → List Message
  all_received [] = []
  all_received (r ∷ rounds) = elim r.polled [
    | failed err ↦ all_received rounds
    | received msgs broken ↦ msgs ++ all_received rounds
  ]

  feed-IsPrefix :
      (taken : Option ℕ) (msgs : List Message) → IsPrefix (feed Message Broken taken msgs).0 msgs
  unfolding feed
  feed-IsPrefix none msgs = IsPrefix-refl msgs
  feed-IsPrefix (some k) [] = tt
  feed-IsPrefix (some zero) (m ∷ msgs) = tt
  feed-IsPrefix (some (suc k)) (m ∷ msgs) = (refl, feed-IsPrefix (some k) msgs)

  feed_all :
      (taken : Option ℕ) (msgs : List Message)
      → (feed Message Broken taken msgs).1 ≡ false
      → (feed Message Broken taken msgs).0 ≡ msgs
  unfolding feed
  feed_all none msgs h = refl
  feed_all (some k) [] h = refl
  feed_all (some zero) (m ∷ msgs) h = cc
  feed_all (some (suc k)) (m ∷ msgs) h = ap (λ (l : List Message). m ∷ l) (feed_all (some k) msgs h)

  sent-IsPrefix :
      (taken : Option ℕ) (msgs rest more : List Message)
      → IsPrefix rest more
      → (feed Message Broken taken msgs).1 ≡ false
      → IsPrefix ((feed Message Broken taken msgs).0 ++ rest) (msgs ++ more)
  sent-IsPrefix taken msgs rest more h e =
      rw (feed_all taken msgs e) (IsPrefix-append_left msgs rest more h)

  cut-IsPrefix :
      (taken : Option ℕ) (msgs more : List Message)
      → IsPrefix ((feed Message Broken taken msgs).0 ++ []) (msgs ++ more)
  cut-IsPrefix taken msgs more =
      rw append-nil (IsPrefix-append_right _ msgs more (feed-IsPrefix taken msgs))

  module _ (b : ℕ) (rounds : List (Round Message Broken)) where
    jobs_turn :
        ((c : ℕ) → IsPrefix (dispatch Message Broken c rounds).jobs (all_received rounds))
        → (d : Bool) (p : Received Message Broken) (a : Bool) (i : ℕ → ℕ) (w : Bool) (t : Option ℕ)
        → let r : Round Message Broken = record {
          done_before = d;
          polled = p;
          done_after_error = a;
          int63n = i;
          done_in_wait = w;
          taken = t;
        } in
          IsPrefix (dispatch Message Broken b (r ∷ rounds)).jobs (all_received (r ∷ rounds))
    unfolding dispatch all_received
    jobs_turn ih true p a i w t = tt
    jobs_turn ih false (failed err) true i w t = tt
    jobs_turn ih false (failed err) false i true t = tt
    jobs_turn ih false (failed err) false i false t = ih (next_backoff b)
    jobs_turn ih false (received msgs broken) a i w t =
        elim (Bool-cases (feed Message Broken t msgs).1) [
          | inl cut ↦ rw (cut, dispatch, IsPrefix) (cut-IsPrefix t msgs (all_received rounds))
          | inr all ↦
              rw (all, dispatch, IsPrefix)
                (sent-IsPrefix t msgs _ (all_received rounds) (ih receive_backoff_initial) all)
        ]

    all_turn :
        ((c : ℕ)
          → (dispatch Message Broken c rounds).stopped ≡ false
          → (dispatch Message Broken c rounds).jobs ≡ all_received rounds)
        → (d : Bool) (p : Received Message Broken) (a : Bool) (i : ℕ → ℕ) (w : Bool) (t : Option ℕ)
        → let r : Round Message Broken = record {
          done_before = d;
          polled = p;
          done_after_error = a;
          int63n = i;
          done_in_wait = w;
          taken = t;
        } in
          (dispatch Message Broken b (r ∷ rounds)).stopped ≡ false
          → (dispatch Message Broken b (r ∷ rounds)).jobs ≡ all_received (r ∷ rounds)
    unfolding dispatch all_received
    all_turn ih true p a i w t h = cc
    all_turn ih false (failed err) true i w t h = cc
    all_turn ih false (failed err) false i true t h = cc
    all_turn ih false (failed err) false i false t h = ih (next_backoff b) h
    all_turn ih false (received msgs broken) a i w t h =
        ground (arith, feed_all t msgs, ih receive_backoff_initial)

  -- The first half of `dispatch-jobs`, from any backoff.
  jobs-IsPrefix :
      (b : ℕ) (rounds : List (Round Message Broken))
      → IsPrefix (dispatch Message Broken b rounds).jobs (all_received rounds)
  unfolding dispatch all_received
  jobs-IsPrefix b [] = tt
  jobs-IsPrefix b (r ∷ rounds) =
      jobs_turn b rounds (λ c. jobs-IsPrefix c rounds) r.done_before r.polled r.done_after_error
        r.int63n r.done_in_wait r.taken

  -- The second half.
  pub jobs_all :
      (b : ℕ) (rounds : List (Round Message Broken))
      → (dispatch Message Broken b rounds).stopped ≡ false
      → (dispatch Message Broken b rounds).jobs ≡ all_received rounds
  unfolding dispatch all_received
  jobs_all b [] = λ h. refl
  jobs_all b (r ∷ rounds) =
      all_turn b rounds (λ c. jobs_all c rounds) r.done_before r.polled r.done_after_error r.int63n
        r.done_in_wait r.taken

  -- From the first backoff on, the jobs handed to the workers begin the list of all messages that the
  -- polls return, in order: none is skipped, reordered or handed over twice; and they are all of
  -- them while the loop has not returned.
  pub dispatch-jobs :
      (rounds : List (Round Message Broken))
      → let d = dispatch Message Broken receive_backoff_initial rounds in
        IsPrefix d.jobs (all_received rounds)
        × ((d.stopped ≡ true) ⊎ (d.jobs ≡ all_received rounds))
  dispatch-jobs rounds = (
    jobs-IsPrefix receive_backoff_initial rounds,
    elim (Bool-cases (dispatch Message Broken receive_backoff_initial rounds).stopped) [
      | inl stopped ↦ inl stopped
      | inr running ↦ inr (jobs_all receive_backoff_initial rounds running)
    ],
  )
