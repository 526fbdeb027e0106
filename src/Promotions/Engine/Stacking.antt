-- ===== src/Promotions/Engine/Stacking.antt =====
-- Which promotions are applied together (modules/promotions/entities/promotion.engine.ts).
use smart_light.Prelude.{
  ℕ, suc, ◌+◌, ◌≤◌, ◌≤ℤ◌, int_laws, Bool, true, false, not, List, [], ◌∷◌, none, some, ◌≡◌, refl,
  arith, inl, inr, Bool-cases, Option-cases, if◌then◌else◌, map,
}
use smart_light.Table.{All}
use smart_light.Table.Rows.{All-map}
use smart_light.Promotions.Amount.{Amount, IsOrdered}
use smart_light.Promotions.Types.{Promotion, CartContext, Evaluation, Progress, is_shipping}
use smart_light.Promotions.Engine.{
  comes_before, applied_before, rejection, apply_shipping, apply_order, step, rounds, initial,
  evaluate, sort,
}
use smart_light.Promotions.Engine.Bounds.{step_rejected, step_shipping, step_order}
use smart_light.Promotions.Engine.Order.{
  All-sort, IsSorted, occurrences, occurrences-sort, sort-IsSorted,
}

module _ {W : Type 0} where
  -- An evaluation with status APPLIED of a promotion on the shipping fee, or on the order.
  abbrev pub is_applied : Bool → Evaluation W → Bool
  is_applied ship e = elim e.reason [
    | none ↦ if ship then is_shipping e.type else not (is_shipping e.type)
    | some _ ↦ false
  ]

  unfoldable pub applied_count : Bool → List (Evaluation W) → ℕ
  applied_count ship [] = 0
  applied_count ship (e ∷ es) = (if is_applied ship e then 1 else 0) + applied_count ship es

  abbrev counter : Bool → Progress W → ℕ
  counter true c = c.shipping_promotions_applied
  counter false c = c.order_promotions_applied

module _ {W : Type 0} ⦃w : Amount W⦄ ⦃laws : IsOrdered W⦄ where
  module _ (now : ℕ) (all : List (Promotion W)) (context : CartContext W) (c : Progress W)
      (p : Promotion W) where
    -- A promotion that cannot be stacked passes only as the first of its category.
    first_of_category :
        p.stackable ≡ false → rejection now all context c p ≡ none → applied_before p c ≡ 0
    unfolding rejection
    first_of_category alone passed = ground (arith, alone, passed)

    -- A round counts the promotion where it is applied.
    step-counter :
        (ship : Bool)
        → counter ship (step now all context c p).1
          ≡ counter ship c + (if is_applied ship (step now all context c p).0 then 1 else 0)
    step-counter ship = elim (Option-cases (rejection now all context c p)) [
      | inr (r, rejected) ↦ rw (step_rejected now all context c p rejected) (omega arith)
      | inl passed ↦ elim (Bool-cases (is_shipping p.type)) [
        | inl free ↦ rw (step_shipping now all context c p passed free) (counted_shipping ship free)
        | inr paid ↦ rw (step_order now all context c p passed paid) (counted_order ship paid)
      ]
    ]
      where
        counted_shipping :
            (ship : Bool)
            → is_shipping p.type ≡ true
            → counter ship (apply_shipping context c p).1
              ≡ counter ship c + (if is_applied ship (apply_shipping context c p).0 then 1 else 0)
        counted_shipping true free = ground (arith, free)
        counted_shipping false free = ground (arith, free)

        counted_order :
            (ship : Bool)
            → is_shipping p.type ≡ false
            → counter ship (apply_order context c p).1
              ≡ counter ship c + (if is_applied ship (apply_order context c p).0 then 1 else 0)
        counted_order true paid = ground (arith, paid)
        counted_order false paid = ground (arith, paid)

    -- No counter passes one.
    step-one :
        (ship : Bool)
        → p.stackable ≡ false
        → counter ship c ≤ 1
        → counter ship (step now all context c p).1 ≤ 1
    step-one ship alone one = elim (Option-cases (rejection now all context c p)) [
      | inr (r, rejected) ↦ rw (step_rejected now all context c p rejected) one
      | inl passed ↦ elim (Bool-cases (is_shipping p.type)) [
        | inl free ↦
            rw (step_shipping now all context c p passed free)
              (first_shipping ship one free (first_of_category alone passed))
        | inr paid ↦
            rw (step_order now all context c p passed paid)
              (first_order ship one paid (first_of_category alone passed))
      ]
    ]
      where
        first_shipping :
            (ship : Bool)
            → counter ship c ≤ 1
            → is_shipping p.type ≡ true
            → applied_before p c ≡ 0
            → counter ship (apply_shipping context c p).1 ≤ 1
        first_shipping true one free fresh = ground (arith, free, fresh)
        first_shipping false one free fresh = one

        first_order :
            (ship : Bool)
            → counter ship c ≤ 1
            → is_shipping p.type ≡ false
            → applied_before p c ≡ 0
            → counter ship (apply_order context c p).1 ≤ 1
        first_order true one paid fresh = one
        first_order false one paid fresh = ground (arith, paid, fresh)

    step-id : (step now all context c p).0.promotion_id ≡ p.id
    step-id = elim (Option-cases (rejection now all context c p)) [
      | inr (r, rejected) ↦ rw (step_rejected now all context c p rejected) refl
      | inl passed ↦ elim (Bool-cases (is_shipping p.type)) [
        | inl free ↦ rw (step_shipping now all context c p passed free) refl
        | inr paid ↦ rw (step_order now all context c p passed paid) refl
      ]
    ]

  module _ (clock : ℕ → ℕ) (all : List (Promotion W)) (context : CartContext W) (ship : Bool) where
    rounds-counter :
        (i : ℕ) (c : Progress W) (ps : List (Promotion W))
        → counter ship (rounds clock i all context c ps).1
          ≡ counter ship c + applied_count ship (rounds clock i all context c ps).0
    unfolding rounds applied_count
    rounds-counter i c [] = omega arith
    rounds-counter i c (p ∷ ps) =
        let (e, c') = step (clock i) all context c p in
        omega (
          arith,
          step-counter (clock i) all context c p ship,
          rounds-counter (suc i) (step (clock i) all context c p).1 ps,
        )

    rounds-one :
        (i : ℕ) (c : Progress W) (ps : List (Promotion W))
        → All (λ p. p.stackable ≡ false) ps
        → counter ship c ≤ 1
        → counter ship (rounds clock i all context c ps).1 ≤ 1
    unfolding rounds
    rounds-one i c [] a one = one
    rounds-one i c (p ∷ ps) a one =
        rounds-one (suc i) (step (clock i) all context c p).1 ps a.1
          (step-one (clock i) all context c p ship a.0 one)

  rounds-ids :
      (clock : ℕ → ℕ) (i : ℕ) (all : List (Promotion W)) (context : CartContext W) (c : Progress W)
      (ps : List (Promotion W))
      → map (λ e. e.promotion_id) (rounds clock i all context c ps).0 ≡ map (λ p. p.id) ps
  unfolding rounds
  rounds-ids clock i all context c [] = refl
  rounds-ids clock i all context c (p ∷ ps) =
      rw
        (
          step-id (clock i) all context c p,
          rounds-ids clock (suc i) all context (step (clock i) all context c p).1 ps,
        )
        refl

  -- Of promotions that cannot be stacked, at most one is applied to the shipping fee and at most one
  -- to the order, whatever the clock shows.
  pub evaluate_one_of_each :
      (clock : ℕ → ℕ) (promotions : List (Promotion W)) (context : CartContext W)
      → All (λ p. p.stackable ≡ false) promotions
      → (applied_count true (evaluate clock promotions context).evaluations ≤ 1)
        × (applied_count false (evaluate clock promotions context).evaluations ≤ 1)
  unfolding evaluate
  evaluate_one_of_each clock promotions context alone = (at_most true, at_most false)
    where
      fresh : (ship : Bool) → counter ship (initial context) ≤ 1
      fresh true = omega arith
      fresh false = omega arith

      at_most :
          (ship : Bool)
          → applied_count ship
              (rounds clock 0 (sort promotions) context (initial context) (sort promotions)).0
            ≤ 1
      at_most ship = omega (
        arith,
        rounds-one clock (sort promotions) context ship 0 (initial context) (sort promotions)
            (All-sort _ promotions alone) (fresh ship),
        rounds-counter clock (sort promotions) context ship 0 (initial context) (sort promotions),
      )

  -- A greater priority goes first; among equal priorities, what was created earlier.
  pub record Precedes (p q : Promotion W) : Type 0 where
    pub by_priority : q.priority ≤ℤ p.priority
    pub by_age : p.priority ≡ q.priority → p.created_at ≤ q.created_at

  abbrev pub IsByPriority : List (Promotion W) → Type 0
  IsByPriority [] = Unit
  IsByPriority (p ∷ t) = All (Precedes p) t × IsByPriority t

  not_before-Precedes : (p q : Promotion W) → comes_before q p ≡ false → Precedes p q
  not_before-Precedes p q h = record {
    by_priority = grind (int_laws, h);
    by_age = λ same. ground (arith, h, same);
  }

  sorted-IsByPriority : (t : List (Promotion W)) → IsSorted t → IsByPriority t
  sorted-IsByPriority [] s = tt
  sorted-IsByPriority (p ∷ t) (first, rest) =
      (All-map t (λ q. not_before-Precedes p q) first, sorted-IsByPriority t rest)

  -- The evaluations answer the sorted promotions one by one; the sorted list has every promotion's id
  -- as often as the list that was given; and in it a promotion of greater priority stands in front of
  -- one of less, and among equal priorities none stands behind a younger one.
  pub evaluate-sort :
      (clock : ℕ → ℕ) (promotions : List (Promotion W)) (context : CartContext W)
      → (map (λ e. e.promotion_id) (evaluate clock promotions context).evaluations
          ≡ map (λ p. p.id) (sort promotions))
        × ((id : ℕ) → occurrences id (sort promotions) ≡ occurrences id promotions)
        × IsByPriority (sort promotions)
  unfolding evaluate
  evaluate-sort clock promotions context = (
    rounds-ids clock 0 (sort promotions) context (initial context) (sort promotions),
    λ id. occurrences-sort id promotions,
    sorted-IsByPriority (sort promotions) (sort-IsSorted promotions),
  )
