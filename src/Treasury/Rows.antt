-- ===== src/Treasury/Rows.antt =====
-- Lemmas on the rows of the treasury's tables.
use kailo_be.Prelude.{
  ◌+◌, ◌≡◌, refl, sym, ap, subst, ◌∙◌, arith, IsIn, at_head, in_tail, any-IsIn, String, Bool, true,
  false, List, [], ◌∷◌, ◌++◌, any, All, str_eq, eq_iff, if◌then◌else◌, Bool-cases, ◌⊎◌, inl, inr,
}
use kailo_be.Store.Rows.{TreasuryAccount, TreasuryReservation}
use kailo_be.Store.Table.{update}
use kailo_be.Onramp.Checkouts.{is_reserved}
use kailo_be.Treasury.{part, held, has_id, IsDistinct, has_account}

pub held-append :
    (id : String) (rs : List TreasuryReservation) (r : TreasuryReservation)
    → held id (rs ++ r ∷ []) ≡ held id rs + part id r
held-append id [] r = omega arith
held-append id (x ∷ rs) r = omega (arith, held-append id rs r)

pub any-append {ℓ} :
    {A : Type ℓ} (p : A → Bool) (xs : List A) (a : A)
    → any p xs ≡ false
    → p a ≡ false
    → any p (xs ++ a ∷ []) ≡ false
any-append p [] a h k = ground arith
any-append p (x ∷ xs) a h k = ground (arith, any-append p xs a)

pub append-IsDistinct :
    (rs : List TreasuryReservation) (r : TreasuryReservation)
    → IsDistinct rs
    → any (has_id r.id) rs ≡ false
    → IsDistinct (rs ++ r ∷ [])
append-IsDistinct [] r d h = (refl, tt)
append-IsDistinct (x ∷ rs) r (a, d) h = (
  any-append (has_id x.id) rs r a (ground (arith, eq_iff x.id r.id, eq_iff r.id x.id)),
  append-IsDistinct rs r d (ground arith),
)

-- A change of the rows of one id, which leaves their ids.
module _ (id : String) (f : TreasuryReservation → TreasuryReservation)
    (same_id : (r : TreasuryReservation) → (f r).id ≡ r.id) where
  pub any-update :
      (other : String) (rs : List TreasuryReservation)
      → any (has_id other) (update (has_id id) f rs) ≡ any (has_id other) rs
  any-update other [] = refl
  any-update other (r ∷ rs) = ground (arith, any-update other rs, same_id r)

  pub update-IsDistinct :
      (rs : List TreasuryReservation) → IsDistinct rs → IsDistinct (update (has_id id) f rs)
  update-IsDistinct [] d = tt
  update-IsDistinct (r ∷ rs) (a, d) =
      (new_head (has_id id r) (any-update r.id rs ∙ a), update-IsDistinct rs d)
    where
      new_head :
          (b : Bool)
          → any (has_id r.id) (update (has_id id) f rs) ≡ false
          → any (has_id (if b then f r else r).id) (update (has_id id) f rs) ≡ false
      new_head true h =
          subst (λ (s : String). any (has_id s) (update (has_id id) f rs) ≡ false) (sym (same_id r))
            h
      new_head false h = h

  pub held-update-none :
      (t : String) (rs : List TreasuryReservation)
      → any (has_id id) rs ≡ false
      → held t (update (has_id id) f rs) ≡ held t rs
  held-update-none t [] h = refl
  held-update-none t (r ∷ rs) h = ground (arith, held-update-none t rs)

  pub All-homes :
      (accounts : List TreasuryAccount) (rs : List TreasuryReservation)
      → ((r : TreasuryReservation) → (f r).treasury_id ≡ r.treasury_id)
      → All (λ (r : TreasuryReservation). has_account accounts r.treasury_id ≡ true) rs
      → All
          (λ (r : TreasuryReservation). has_account accounts r.treasury_id ≡ true)
          (update (has_id id) f rs)
  All-homes accounts [] same h = tt
  All-homes accounts (r ∷ rs) same (h, hs) = (moved (has_id id r), All-homes accounts rs same hs)
    where
      moved : (b : Bool) → has_account accounts (if b then f r else r).treasury_id ≡ true
      moved true = subst (λ (s : String). has_account accounts s ≡ true) (sym (same r)) h
      moved false = h

-- A reservation that is freed leaves the sum.
pub held-update :
    (t : String) (f : TreasuryReservation → TreasuryReservation)
    → ((r : TreasuryReservation) → (f r).id ≡ r.id)
    → ((r : TreasuryReservation) → is_reserved (f r).status ≡ false)
    → {r : TreasuryReservation} {rs : List TreasuryReservation} → IsDistinct rs
    → IsIn r rs
    → held t (update (has_id r.id) f rs) + part t r ≡ held t rs
held-update t f same_id freed {rs = []} d m = elim m [ ]
held-update t f same_id freed {r} {rs = x ∷ rs} (a, d) (at_head e) =
    subst
      (λ (y : TreasuryReservation).
        held t (update (has_id y.id) f (x ∷ rs)) + part t y ≡ held t (x ∷ rs))
      (sym e) (ground (arith, held-update-none x.id f same_id t rs a, freed x, eq_iff x.id x.id))
held-update t f same_id freed {r} {rs = x ∷ rs} (a, d) (in_tail m) =
    ground (arith, held-update t f same_id freed d m, other)
  where
    other : has_id r.id x ≡ false
    other = ground (arith, eq_iff x.id r.id, eq_iff r.id x.id, any-IsIn (has_id x.id) m)

-- No reservation stands on an account that is not there.
pub held-none :
    (accounts : List TreasuryAccount) (id : String) (rs : List TreasuryReservation)
    → All (λ (r : TreasuryReservation). has_account accounts r.treasury_id ≡ true) rs
    → has_account accounts id ≡ false
    → held id rs ≡ 0
held-none accounts id [] h k = refl
held-none accounts id (r ∷ rs) (h, hs) k =
    ground (arith, held-none accounts id rs hs k, other (Bool-cases (str_eq r.treasury_id id)))
  where
    other :
        (str_eq r.treasury_id id ≡ true) ⊎ (str_eq r.treasury_id id ≡ false)
        → str_eq r.treasury_id id ≡ false
    other (inl e) = absurd (cc (h, k, ap (has_account accounts) (((eq_iff r.treasury_id id).0) e)))
    other (inr e) = e

-- The rows that an update changes, and those that it leaves.
pub All-update {ℓ κ ι} :
    {A : Type ℓ} (P : A → Type κ) (Q : A → Type ι) (p : A → Bool) (f : A → A)
    → ((a : A) → p a ≡ true → P a → Q (f a))
    → ((a : A) → p a ≡ false → P a → Q a)
    → (xs : List A) → All P xs
    → All Q (update p f xs)
All-update P Q p f h k [] all = tt
All-update P Q p f h k (x ∷ xs) (a, all) = (split (p x) refl, All-update P Q p f h k xs all)
  where
    split : (b : Bool) → p x ≡ b → Q (if b then f x else x)
    split true e = h x e a
    split false e = k x e a

-- A change of accounts that leaves their ids.
pub has_account-update :
    (p : TreasuryAccount → Bool) (f : TreasuryAccount → TreasuryAccount) (id : String)
    → ((t : TreasuryAccount) → p t ≡ true → (f t).id ≡ t.id)
    → (accounts : List TreasuryAccount)
    → has_account (update p f accounts) id ≡ has_account accounts id
has_account-update p f id same [] = refl
has_account-update p f id same (t ∷ accounts) =
    ground (arith, has_account-update p f id same accounts, same t)
