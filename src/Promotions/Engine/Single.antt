-- ===== src/Promotions/Engine/Single.antt =====
-- `evaluate` on one promotion against `validate` (modules/promotions/entities/promotion.engine.ts).
use smart_light.Prelude.{
  ℕ, false, [], ◌∷◌, none, some, ◌≡◌, refl, ap, arith, ==_refl, inl, inr, Option-cases,
}
use smart_light.Promotions.Types.{Promotion, CartContext, RejectionReason, is_shipping}
use smart_light.Promotions.Amount.{Amount, IsOrdered}
use smart_light.Promotions.Engine.{
  outside_window, unmet, has_percentage, rejection, reject, step, rounds, initial, sort, insert,
  evaluate, validate, apply_order,
}
use smart_light.Promotions.Engine.Bounds.{step_rejected, step_order}

module _ {W : Type 0} ⦃w : Amount W⦄ ⦃laws : IsOrdered W⦄ (now : ℕ) (p : Promotion W)
    (context : CartContext W) where
  -- Alone, a promotion is rejected for its window or for what it asks of the cart.
  rejection_alone :
      rejection now (p ∷ []) context (initial context) p
      ≡ (elim (outside_window now p) [ some r ↦ some r | none ↦ unmet p context ])
  unfolding rejection has_percentage
  rejection_alone = ground (arith, ==_refl p.id)

  validate_rejected :
      {r : RejectionReason}
      → rejection now (p ∷ []) context (initial context) p ≡ some r
      → validate now p context ≡ reject p r context
  unfolding validate
  validate_rejected rejected = ground (arith, rejection_alone, rejected)

  validate_passed :
      rejection now (p ∷ []) context (initial context) p ≡ none
      → validate now p context ≡ (apply_order context (initial context) p).0
  unfolding validate
  validate_passed passed = ground (arith, rejection_alone, passed)

  step-validate :
      is_shipping p.type ≡ false
      → (step now (p ∷ []) context (initial context) p).0 ≡ validate now p context
  step-validate paid = elim (Option-cases (rejection now (p ∷ []) context (initial context) p)) [
    | inr (r, rejected) ↦
        rw
          (
            step_rejected now (p ∷ []) context (initial context) p rejected,
            validate_rejected rejected,
          )
          refl
    | inl passed ↦
        rw (step_order now (p ∷ []) context (initial context) p passed paid, validate_passed passed)
          refl
  ]

module _ {W : Type 0} ⦃w : Amount W⦄ ⦃laws : IsOrdered W⦄ where
  -- A promotion on the order that is evaluated alone is evaluated as `validate` evaluates it, at the
  -- time of the one round.
  pub evaluate-validate :
      (clock : ℕ → ℕ) (p : Promotion W) (context : CartContext W)
      → is_shipping p.type ≡ false
      → (evaluate clock (p ∷ []) context).evaluations ≡ validate (clock 0) p context ∷ []
  unfolding evaluate sort insert rounds
  evaluate-validate clock p context paid = ap (λ e. e ∷ []) (step-validate (clock 0) p context paid)
