-- ===== src/Onramp/Marks.antt =====
-- The receipt of a callback after `RecordCallbackReceipt` of internal/repository/onramp_repository.go.
use kailo_be.Prelude.{
  ◌≡◌, refl, sym, ◌∙◌, arith, eq_iff, String, Bool, true, false, ◌||◌, Option, some, none, is_some,
  str_eq, List, [], ◌∷◌, ◌++◌, any, find, if◌then◌else◌,
}
use kailo_be.Prelude.Time.{Instant}
use kailo_be.Store.{Database}
use kailo_be.Store.Table.{update}
use kailo_be.Store.Triples.{
  Triple, triple->>=, triple-pure, triple-gets, triple-found, triple-raise_if, triple-wrapping,
  triple-modify, triple-pre, Keeps-new_id,
}
use kailo_be.Store.Rows.{GatewayEvent}
use kailo_be.Onramp.Payments.{
  CallbackReceipt, is_receipt, find_receipt, seen_receipt, receipt_row, in_the_way, insert_unless,
  record_new, record_callback_receipt,
}

-- The receipt of an event is there, for a text of this digest.
abbrev pub IsSaved : String → String → Database → Type 0
IsSaved event_id payload_hash db =
    (g : GatewayEvent) × (find_receipt event_id db ≡ some g) × (g.payload_hash ≡ payload_hash)

-- The same, and whether it was processed.
abbrev pub IsMarked : String → String → Bool → Database → Type 0
IsMarked event_id payload_hash b db =
    (g : GatewayEvent) × (find_receipt event_id db ≡ some g)
    × (g.payload_hash ≡ payload_hash)
    × (is_some g.processed_at ≡ b)

find-last {ℓ} :
    {A : Type ℓ} (p q : A → Bool) (xs : List A) (x : A)
    → any (λ a. q a || p a) xs ≡ false
    → p x ≡ true
    → find p (xs ++ x ∷ []) ≡ some x
find-last p q [] x h k = ground arith
find-last p q (y ∷ xs) x h k = ground (arith, find-last p q xs x)

pub find-update {ℓ} :
    {A : Type ℓ} (p : A → Bool) (f : A → A) (xs : List A) {a : A}
    → ((b : A) → p b ≡ true → p (f b) ≡ true)
    → find p xs ≡ some a
    → find p (update p f xs) ≡ some (f a)
find-update p f [] k h = ground arith
find-update p f (x ∷ xs) {a} k h = split (p x) refl h (find-update p f xs k)
  where
    split :
        (b : Bool)
        → p x ≡ b
        → (if b then some x else find p xs) ≡ some a
        → (find p xs ≡ some a → find p (update p f xs) ≡ some (f a))
        → find p ((if b then f x else x) ∷ update p f xs) ≡ some (f a)
    split true e i rest = ground (arith, k x)
    split false e i rest = ground (arith, rest i)

-- A receipt that is there already.
seen_receipt-IsMarked :
    (receipt : CallbackReceipt) (g : GatewayEvent)
    → Triple
        (λ db. find_receipt receipt.event_id db ≡ some g)
        (seen_receipt receipt g)
        (λ b db. IsMarked receipt.event_id receipt.payload_hash b db)
seen_receipt-IsMarked receipt g = triple->>= (triple-raise_if _ _) λ _.
    triple-pure _ λ db h. (g, h.0, ground (arith, eq_iff g.payload_hash receipt.payload_hash), refl)

insert_unless-IsMarked :
    (b : Bool) (receipt : CallbackReceipt) (id : String) (now : Instant)
    → Triple
        (λ db. in_the_way (receipt_row id receipt now) db ≡ b)
        (insert_unless b receipt (receipt_row id receipt now))
        (λ c db. IsMarked receipt.event_id receipt.payload_hash c db)
insert_unless-IsMarked true receipt id now = triple->>= (triple-gets _) λ row.
    triple->>= (triple-wrapping _ (triple-found _ row))
      λ g. triple-pre (λ db h. sym h.0.1 ∙ h.1) (seen_receipt-IsMarked receipt g)
insert_unless-IsMarked false receipt id now =
    triple->>=
      (triple-modify _
        {Q = λ u db. find_receipt receipt.event_id db ≡ some (receipt_row id receipt now)}
        (λ db h.
          find-last (is_receipt receipt.event_id) (λ g. str_eq g.id id) db.gateway_events _ h
            (ground (arith, eq_iff receipt.event_id receipt.event_id))))
      λ _. triple-pure _ (λ db h. (_, h, refl, refl))

pub record_callback_receipt-IsMarked :
    (receipt : CallbackReceipt) (now : Instant)
    → Triple
        (λ db. Unit {0})
        (record_callback_receipt receipt now (λ db. db))
        (λ b db. IsMarked receipt.event_id receipt.payload_hash b db)
unfolding record_callback_receipt
record_callback_receipt-IsMarked receipt now = triple->>= (triple-gets _) rest
  where
    rest :
        (row : Option GatewayEvent)
        → Triple
            (λ db. Unit {0} × (row ≡ find_receipt receipt.event_id db))
            (record_new receipt now (λ db. db) row)
            (λ b db. IsMarked receipt.event_id receipt.payload_hash b db)
    rest (some g) = triple-pre (λ db h. sym h.1) (seen_receipt-IsMarked receipt g)
    rest none = triple->>= (triple-modify _ {Q = λ u db. Unit {0}} (λ db h. tt)) λ _.
        triple->>= (Keeps-new_id (λ db ids h. h)) λ id.
          triple->>= (triple-gets _)
            λ taken. triple-pre (λ db h. sym h.1) (insert_unless-IsMarked taken receipt id now)
