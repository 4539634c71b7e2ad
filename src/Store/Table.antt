-- ===== src/Store/Table.antt =====
-- Statements over one table: a table is the list of its rows, in the order of their insertion.
use kailo_be.Prelude.{
  ℕ, ◌+◌, String, Bool, true, false, Option, none, some, List, [], ◌∷◌, if◌then◌else◌, str_eq,
}

-- `UPDATE ... SET f WHERE p`.
abbrev pub update {ℓ} : {A : Type ℓ} → (A → Bool) → (A → A) → List A → List A
update p f [] = []
update p f (x ∷ xs) = (if p x then f x else x) ∷ update p f xs

-- A column that may be NULL, compared with a value.
abbrev pub col_eq : Option String → String → Bool
col_eq none s = false
col_eq (some t) s = str_eq t s

abbrev pub is_null {ℓ} : {A : Type ℓ} → Option A → Bool
is_null none = true
is_null (some a) = false

-- `RowsAffected` of an update or a delete.
abbrev pub affected {ℓ} : {A : Type ℓ} → (A → Bool) → List A → ℕ
affected p [] = 0
affected p (x ∷ xs) = (if p x then 1 else 0) + affected p xs
