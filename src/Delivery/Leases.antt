-- ===== src/Delivery/Leases.antt =====
-- What becomes of the response to an attempt that `StartAttempt` of
-- internal/repository/webhook_delivery_repository.go has replaced.
use kailo_be.Prelude.{
  ℕ, ◌+◌, ◌≡◌, refl, sym, ap, ◌∙◌, subst, Bool-cases, arith, eq_iff, ◌⊎◌, inl, inr, String, Bool,
  true, false, Option, some, List, [], ◌∷◌, ◌++◌, any, str_eq,
}
use kailo_be.Prelude.Int.{ℤ}
use kailo_be.Prelude.Errors.{ok, err}
use kailo_be.Prelude.Time.{Instant}
use kailo_be.Store.Queries.{head, sorted, filter, any-sorted, any-filter}
use kailo_be.Store.Table.{update, affected}
use kailo_be.Delivery.{WebhookDeliveryResult}
use kailo_be.Delivery.Attempts.{
  AttemptStart, in_flight, superseded, WebhookAttempt, latest, closed, lease_expired, after_flight,
  after_status, after_latest, start_attempt, is_open_attempt, not_leased, complete_attempt,
  is_in_flight,
}
use kailo_be.Delivery.Numbers.{taken, IsInserted, next-IsInserted}

-- No row has an id that is in flight, after the rows of that id were closed.
closed-any :
    (f : WebhookAttempt → WebhookAttempt) (id : String) (rows : List WebhookAttempt)
    → ((a : WebhookAttempt) → is_in_flight (f a).status ≡ false)
    → affected (is_open_attempt id) (update (λ (a : WebhookAttempt). str_eq a.id id) f rows) ≡ 0
closed-any f id [] h = refl
closed-any f id (a ∷ rows) h = ground (arith, h a, closed-any f id rows h)

-- A row of another id, behind them.
affected-last :
    (id : String) (rows : List WebhookAttempt) (a : WebhookAttempt)
    → affected (is_open_attempt id) rows ≡ 0
    → str_eq a.id id ≡ false
    → affected (is_open_attempt id) (rows ++ a ∷ []) ≡ 0
affected-last id [] a h k = ground arith
affected-last id (b ∷ rows) a h k = ground (arith, affected-last id rows a)

module _ (s : AttemptStart) where
  -- The row that is inserted has another id than those that are there.
  other-id :
      (id : String) (f : WebhookAttempt → WebhookAttempt) (q : WebhookAttempt → Bool)
      (new : WebhookAttempt) (rows : List WebhookAttempt)
      → ((a : WebhookAttempt) → (f a).id ≡ a.id)
      → any (λ (a : WebhookAttempt). str_eq a.id id) rows ≡ true
      → any (taken s new) (update q f rows) ≡ false
      → str_eq new.id id ≡ false
  other-id id f q new [] k h e = cc
  other-id id f q new (a ∷ rows) k h e =
      ground (
        arith,
        k a,
        eq_iff a.id id,
        eq_iff new.id id,
        eq_iff a.id new.id,
        other-id id f q new rows k,
      )

  superseded-dropped :
      (old a : WebhookAttempt) (rows after : List WebhookAttempt) (number : ℕ)
      → any (λ (x : WebhookAttempt). str_eq x.id old.id) rows ≡ true
      → IsInserted s number (closed superseded s.now lease_expired old rows) after a
      → affected (is_open_attempt old.id) after ≡ 0
  superseded-dropped old a rows after number here i =
      subst (λ r. affected (is_open_attempt old.id) r ≡ 0) (sym i.rest)
        (affected-last old.id _ a (closed-any _ old.id rows (λ x. refl))
          (other-id old.id _ _ a rows (λ x. refl) here i.fresh))

  flight-dropped :
      (t u : Bool) (old a : WebhookAttempt) (rows after : List WebhookAttempt)
      → any (λ (x : WebhookAttempt). str_eq x.id old.id) rows ≡ true
      → after_flight s t u old rows ≡ ok (some a, after)
      → affected (is_open_attempt old.id) after ≡ 0
  flight-dropped true u old a rows after here h = cc
  flight-dropped false true old a rows after here h = cc
  flight-dropped false false old a rows after here h =
      superseded-dropped old a rows after (old.attempt_number + 1) here
        (next-IsInserted s false _ (old.attempt_number + 1) _ after a refl h).0

-- The first row of an ordered selection is one of the rows.
head-any :
    (first : WebhookAttempt → WebhookAttempt → Bool) (q : WebhookAttempt → Bool)
    (rows : List WebhookAttempt) (a : WebhookAttempt)
    → head (sorted first (filter q rows)) ≡ some a
    → any (λ (x : WebhookAttempt). str_eq x.id a.id) rows ≡ true
head-any first q rows a h = by (Bool-cases (any p rows)) (sorted first (filter q rows)) refl h
  where
    p : WebhookAttempt → Bool
    p x = str_eq x.id a.id

    by :
        (any p rows ≡ true) ⊎ (any p rows ≡ false)
        → (xs : List WebhookAttempt) → sorted first (filter q rows) ≡ xs
        → head xs ≡ some a
        → any p rows ≡ true
    by (inl e) xs s k = e
    by (inr e) [] s k = cc
    by (inr e) (x ∷ xs) s k =
        let none_left : any p (x ∷ xs) ≡ false =
          ap (any p) (sym s) ∙ any-sorted p first (filter q rows) ∙ any-filter p q rows e in
        let same : x ≡ a = cc in
        ground (arith, ap (λ (y : WebhookAttempt). y.id) same, eq_iff x.id a.id)

-- When an attempt whose lease has expired gives way to a new one, a response to the old one that
-- comes late is refused, and changes no row: it cannot overwrite what the new attempt owns.
pub late_response_refused :
    (s : AttemptStart) (rows after : List WebhookAttempt) (old a : WebhookAttempt)
    (result : WebhookDeliveryResult) (duration : ℤ) (hash : Option String) (later : Instant)
    → latest s.event_id s.endpoint_id rows ≡ some old
    → old.status ≡ in_flight
    → start_attempt s rows ≡ ok (some a, after)
    → complete_attempt old.id result duration hash later after ≡ (err not_leased, after)
unfolding start_attempt complete_attempt
late_response_refused s rows after old a result duration hash later is_latest flying h =
    rw (flight-dropped s _ _ old a rows after (head-any _ _ rows old is_latest) started) refl
  where
    started : after_status s in_flight old rows ≡ ok (some a, after)
    started =
        subst (λ st. after_status s st old rows ≡ ok (some a, after)) flying
          (subst (λ o. after_latest s o rows ≡ ok (some a, after)) is_latest h)
