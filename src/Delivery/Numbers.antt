-- ===== src/Delivery/Numbers.antt =====
-- Which attempts `StartAttempt` of internal/repository/webhook_delivery_repository.go starts.
use kailo_be.Prelude.{
  ℕ, ◌+◌, ◌≤◌, ◌≡◌, refl, sym, ap, subst, arith, ◌⊎◌, inl, inr, String, Bool, true, false, ◌&&◌,
  not, Option, none, some, List, [], ◌∷◌, ◌++◌, any, ltb,
}
use kailo_be.Prelude.Errors.{Result, ok, err}
use kailo_be.Delivery.{delivered, failed, exhausted, retry_scheduled}
use kailo_be.Delivery.Attempts.{
  AttemptStatus, AttemptStart, done, in_flight, superseded, replay_pending, WebhookAttempt, latest,
  attempt_row, is_taken, insert_unless, insert_attempt, next_unless, next_attempt, after_flight,
  after_retry, after_status, after_latest, start_attempt,
}

abbrev pub number_of : Option WebhookAttempt → ℕ
number_of none = 0
number_of (some a) = a.attempt_number

abbrev pub IsReplay : Option WebhookAttempt → Type 0
IsReplay none = ⊥
IsReplay (some a) = a.status ≡ replay_pending

module _ (s : AttemptStart) where
  abbrev pub new_row : ℕ → String → WebhookAttempt
  new_row = attempt_row s

  abbrev pub taken : WebhookAttempt → WebhookAttempt → Bool
  taken = is_taken s

  -- What is inserted.
  pub record IsInserted (number : ℕ) (rows after : List WebhookAttempt) (a : WebhookAttempt)
      : Type 0 where
    pub id : String
    pub row : a ≡ new_row number id
    pub fresh : any (taken a) rows ≡ false
    pub rest : after ≡ rows ++ a ∷ []

  unless-IsInserted :
      (b : Bool) (number : ℕ) (i : String) (rows after : List WebhookAttempt) (a : WebhookAttempt)
      → any (taken (new_row number i)) rows ≡ b
      → insert_unless s b (new_row number i) rows ≡ ok (some a, after)
      → IsInserted number rows after a
  unless-IsInserted true number i rows after a e k = cc
  unless-IsInserted false number i rows after a e k =
      let same : new_row number i ≡ a = cc in
      record {
        id = i;
        row = sym same;
        fresh = subst (λ x. any (taken x) rows ≡ false) same e;
        rest = cc;
      }

  insert-IsInserted :
      (number : ℕ) (i : Result String) (rows after : List WebhookAttempt) (a : WebhookAttempt)
      → insert_attempt s number i rows ≡ ok (some a, after)
      → IsInserted number rows after a
  insert-IsInserted number (err e) rows after a h = cc
  insert-IsInserted number (ok i) rows after a h = unless-IsInserted _ number i rows after a refl h

  pub next-IsInserted :
      (replay b : Bool) (number : ℕ) (rows after : List WebhookAttempt) (a : WebhookAttempt)
      → (ltb s.max_attempts number && not replay) ≡ b
      → next_unless s b number rows ≡ ok (some a, after)
      → IsInserted number rows after a × ((number ≤ s.max_attempts) ⊎ (replay ≡ true))
  next-IsInserted replay true number rows after a e h = cc
  next-IsInserted replay false number rows after a e h =
      (insert-IsInserted number s.new_id rows after a h, ground arith)

  -- What is known of an attempt that is started behind another.
  abbrev IsStarted : Option WebhookAttempt → WebhookAttempt → Type 0
  IsStarted before a =
      (a.attempt_number ≡ number_of before + 1)
      × (a.status ≡ in_flight)
      × ((a.attempt_number ≤ s.max_attempts) ⊎ IsReplay before)

  inserted-IsStarted :
      (before : Option WebhookAttempt) (replay : Bool) (rows after : List WebhookAttempt)
      (a : WebhookAttempt)
      → (replay ≡ true → IsReplay before)
      → next_attempt s replay (number_of before + 1) rows ≡ ok (some a, after)
      → IsStarted before a
  inserted-IsStarted before replay rows after a k h =
      let (i, bound) = next-IsInserted replay _ (number_of before + 1) rows after a refl h in
      (ap (λ x. x.attempt_number) i.row, ap (λ x. x.status) i.row, within i.row bound)
    where
      within :
          {id : String}
          → a ≡ new_row (number_of before + 1) id
          → (number_of before + 1 ≤ s.max_attempts) ⊎ (replay ≡ true)
          → (a.attempt_number ≤ s.max_attempts) ⊎ IsReplay before
      within e (inl l) = inl (subst (λ x. x.attempt_number ≤ s.max_attempts) (sym e) l)
      within e (inr r) = inr (k r)

  flight-IsStarted :
      (t u : Bool) (b a : WebhookAttempt) (rows after : List WebhookAttempt)
      → after_flight s t u b rows ≡ ok (some a, after)
      → IsStarted (some b) a
  flight-IsStarted true u b a rows after h = cc
  flight-IsStarted false true b a rows after h = cc
  flight-IsStarted false false b a rows after h =
      inserted-IsStarted (some b) false _ after a (λ r. cc) h

  retry-IsStarted :
      (t : Bool) (b a : WebhookAttempt) (rows after : List WebhookAttempt)
      → after_retry s t b rows ≡ ok (some a, after)
      → IsStarted (some b) a
  retry-IsStarted true b a rows after h = cc
  retry-IsStarted false b a rows after h = inserted-IsStarted (some b) false _ after a (λ r. cc) h

  status-IsStarted :
      (b a : WebhookAttempt) (rows after : List WebhookAttempt) (st : AttemptStatus)
      → b.status ≡ st
      → after_status s st b rows ≡ ok (some a, after)
      → IsStarted (some b) a
  status-IsStarted b a rows after (done delivered) e h = cc
  status-IsStarted b a rows after (done failed) e h = cc
  status-IsStarted b a rows after (done exhausted) e h = cc
  status-IsStarted b a rows after (done retry_scheduled) e h = retry-IsStarted _ b a rows after h
  status-IsStarted b a rows after in_flight e h = flight-IsStarted _ _ b a rows after h
  status-IsStarted b a rows after superseded e h =
      inserted-IsStarted (some b) false rows after a (λ r. cc) h
  status-IsStarted b a rows after replay_pending e h =
      inserted-IsStarted (some b) true _ after a (λ r. e) h

  latest-IsStarted :
      (o : Option WebhookAttempt) (rows after : List WebhookAttempt) (a : WebhookAttempt)
      → after_latest s o rows ≡ ok (some a, after)
      → IsStarted o a
  latest-IsStarted none rows after a h = inserted-IsStarted none false rows after a (λ r. cc) h
  latest-IsStarted (some b) rows after a h = status-IsStarted b a rows after b.status refl h

-- An attempt that is started is in flight, its number is the one behind the latest attempt of the
-- event at the endpoint, or 1, and no more than the attempts that are allowed, unless the latest
-- attempt is a replay that somebody has asked for.
pub attempt_numbers :
    (s : AttemptStart) (rows after : List WebhookAttempt) (a : WebhookAttempt)
    → start_attempt s rows ≡ ok (some a, after)
    → (a.attempt_number ≡ number_of (latest s.event_id s.endpoint_id rows) + 1)
      × (a.status ≡ in_flight)
      × ((a.attempt_number ≤ s.max_attempts) ⊎ IsReplay (latest s.event_id s.endpoint_id rows))
unfolding start_attempt
attempt_numbers s rows after a h =
    latest-IsStarted s (latest s.event_id s.endpoint_id rows) rows after a h
