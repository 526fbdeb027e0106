-- ===== src/Table.antt =====
-- A database table as the list of its rows, with the statements that the repositories send:
-- SELECT of the first match, UPDATE … WHERE and the number of rows that it changed.
pub mod Rows
pub mod Keys
use smart_light.Prelude.{ℕ, ◌+◌, Bool, List, [], ◌∷◌, Option, none, some, ◌≢◌, if◌then◌else◌}

module _ {ℓ} {R : Type ℓ} where
  -- `findFirst`, `findUnique`
  unfoldable pub find_first : (R → Bool) → List R → Option R
  find_first p [] = none
  find_first p (r ∷ t) = if p r then some r else find_first p t

  -- `findMany`
  unfoldable pub find_many : (R → Bool) → List R → List R
  find_many p [] = []
  find_many p (r ∷ t) = let rest = find_many p t in if p r then r ∷ rest else rest

  -- UPDATE … SET f WHERE p
  unfoldable pub update : (R → Bool) → (R → R) → List R → List R
  update p f [] = []
  update p f (r ∷ t) = (if p r then f r else r) ∷ update p f t

  -- The row count that such an UPDATE reports.
  unfoldable pub affected : (R → Bool) → List R → ℕ
  affected p [] = 0
  affected p (r ∷ t) = (if p r then 1 else 0) + affected p t

  abbrev pub All {κ} : (R → Type κ) → List R → Type κ
  All P [] = Unit
  All P (r ∷ t) = P r × All P t

  -- A column under a UNIQUE constraint.
  abbrev pub IsUnique : (R → ℕ) → List R → Type 0
  IsUnique key [] = Unit
  IsUnique key (r ∷ t) = All (λ s. key s ≢ key r) t × IsUnique key t
