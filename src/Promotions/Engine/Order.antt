-- ===== src/Promotions/Engine/Order.antt =====
-- The order in which promotions are evaluated (modules/promotions/entities/promotion.engine.ts).
use smart_light.Prelude.{
  ℕ, ◌+◌, ◌∙◌, true, false, List, [], ◌∷◌, ◌≡◌, refl, arith, ◌==◌, inl, inr, Bool-cases,
  if◌then◌else◌,
}
use smart_light.Table.{All}
use smart_light.Table.Rows.{All-map}
use smart_light.Promotions.Amount.{Amount}
use smart_light.Promotions.Types.{Promotion}
use smart_light.Promotions.Engine.{comes_before, insert, sort}

module _ {W : Type 0} ⦃w : Amount W⦄ where
  pub All-insert {κ} :
      (P : Promotion W → Type κ) (p : Promotion W) (t : List (Promotion W))
      → P p
      → All P t
      → All P (insert p t)
  unfolding insert
  All-insert P p [] h a = (h, a)
  All-insert P p (q ∷ t) h a = elim (Bool-cases (comes_before q p)) [
    | inl older ↦ rw older (a.0, All-insert P p t h a.1)
    | inr younger ↦ rw younger (h, a)
  ]

  pub All-sort {κ} : (P : Promotion W → Type κ) (t : List (Promotion W)) → All P t → All P (sort t)
  unfolding sort
  All-sort P [] a = a
  All-sort P (p ∷ t) a = All-insert P p (sort t) a.0 (All-sort P t a.1)

  before-asym : (p q : Promotion W) → comes_before q p ≡ true → comes_before p q ≡ false
  before-asym p q h = ground (arith, h)

  -- What does not come before `q`, which does not come before `p`, does not come before `p`.
  not_before_trans :
      (p q x : Promotion W)
      → comes_before q p ≡ false
      → comes_before x q ≡ false
      → comes_before x p ≡ false
  not_before_trans p q x h k = ground (arith, h, k)

  -- No promotion comes before one that stands in front of it.
  abbrev pub IsSorted : List (Promotion W) → Type 0
  IsSorted [] = Unit
  IsSorted (p ∷ t) = All (λ q. comes_before q p ≡ false) t × IsSorted t

  -- How often an id occurs.
  unfoldable pub occurrences : ℕ → List (Promotion W) → ℕ
  occurrences id [] = 0
  occurrences id (p ∷ t) = (if p.id == id then 1 else 0) + occurrences id t

  insert-IsSorted : (p : Promotion W) (t : List (Promotion W)) → IsSorted t → IsSorted (insert p t)
  unfolding insert
  insert-IsSorted p [] s = (tt, tt)
  insert-IsSorted p (q ∷ t) (first, s) = elim (Bool-cases (comes_before q p)) [
    | inl older ↦ rw older (
      All-insert (λ x. comes_before x q ≡ false) p t (before-asym p q older) first,
      insert-IsSorted p t s,
    )
    | inr younger ↦
        rw younger
          ((younger, All-map t (λ x h. not_before_trans p q x younger h) first), (first, s))
  ]

  pub sort-IsSorted : (t : List (Promotion W)) → IsSorted (sort t)
  unfolding sort
  sort-IsSorted [] = tt
  sort-IsSorted (p ∷ t) = insert-IsSorted p (sort t) (sort-IsSorted t)

  occurrences-insert :
      (id : ℕ) (p : Promotion W) (t : List (Promotion W))
      → occurrences id (insert p t) ≡ occurrences id (p ∷ t)
  unfolding occurrences insert
  occurrences-insert id p [] = refl
  occurrences-insert id p (q ∷ t) = elim (Bool-cases (comes_before q p)) [
    | inl older ↦ rw older (omega (arith, occurrences-insert id p t))
    | inr younger ↦ rw younger refl
  ]

  pub occurrences-sort :
      (id : ℕ) (t : List (Promotion W)) → occurrences id (sort t) ≡ occurrences id t
  unfolding occurrences sort
  occurrences-sort id [] = refl
  occurrences-sort id (p ∷ t) =
      occurrences-insert id p (sort t) ∙ omega (arith, occurrences-sort id t)
