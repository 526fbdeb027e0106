-- ===== src/Promotions/Engine/Bounds.antt =====
-- What a promotion may take off (modules/promotions/entities/promotion.engine.ts).
use smart_light.Prelude.{
  ℕ, suc, true, false, List, [], ◌∷◌, Option, none, some, ◌≡◌, arith, inl, inr, Bool-cases,
  Option-cases,
}
use smart_light.Table.{All}
use smart_light.Promotions.Amount.{Amount, IsOrdered, ◌≤?◌, least, greatest}
use smart_light.Promotions.Types.{Promotion, CartContext, Progress, RejectionReason, is_shipping}
use smart_light.Promotions.Engine.{
  applicable_amount, raw_discount, cap, discount, rejection, apply_shipping, apply_order, step,
  rounds, initial, evaluate, reject, sort,
}
use smart_light.Promotions.Engine.Order.{All-sort}

module _ {W : Type 0} ⦃w : Amount W⦄ ⦃laws : IsOrdered W⦄ where
  abbrev pub IsNonneg : W → Type 0
  IsNonneg a = (w.zero ≤? a) ≡ true

  pub least_le_right : (a b : W) → (least a b ≤? b) ≡ true
  least_le_right a b = ground (arith, laws.le_refl b)

  greatest-IsNonneg : (x : W) → IsNonneg (greatest x w.zero)
  greatest-IsNonneg x = ground (arith, laws.le_refl w.zero, laws.le_total x w.zero)

  pub IsNonneg-greatest : (x : W) → IsNonneg (greatest w.zero x)
  IsNonneg-greatest x = ground (arith, laws.le_refl w.zero)

  greatest_le : (x b : W) → (x ≤? b) ≡ true → IsNonneg b → (greatest x w.zero ≤? b) ≡ true
  greatest_le x b h n = ground (arith, h, n)

  at_least_zero_le : (x b : W) → (x ≤? b) ≡ true → IsNonneg b → (greatest w.zero x ≤? b) ≡ true
  at_least_zero_le x b h n = ground (arith, h, n)

  pub discount-IsNonneg : (p : Promotion W) (amount : W) → IsNonneg (discount p amount)
  unfolding discount
  discount-IsNonneg p amount = greatest-IsNonneg _

  pub discount-le :
      (p : Promotion W) (amount : W) → IsNonneg amount → (discount p amount ≤? amount) ≡ true
  unfolding discount
  discount-le p amount n = greatest_le _ amount (least_le_right _ amount) n

  cap_le : (o : Option W) (m x : W) → o ≡ some m → (cap o x ≤? m) ≡ true
  cap_le o m x limited = ground (arith, limited, laws.le_refl m)

  least_le_left : (a b : W) → (least a b ≤? a) ≡ true
  least_le_left a b = ground (arith, laws.le_refl a, laws.le_total a b)

  -- The discount of a promotion with a maximum is not negative, at most the amount that the promotion
  -- applies to, and at most the maximum, where neither the amount nor the maximum is negative.
  pub discount_within :
      (p : Promotion W) (amount maximum : W)
      → IsNonneg amount
      → IsNonneg maximum
      → p.maximum_discount ≡ some maximum
      → IsNonneg (discount p amount)
        × ((discount p amount ≤? amount) ≡ true)
        × ((discount p amount ≤? maximum) ≡ true)
  unfolding discount
  discount_within p amount maximum n m limited = (
    discount-IsNonneg p amount,
    discount-le p amount n,
    greatest_le _ maximum
        (laws.le_trans _ _ maximum
          (least_le_left (cap p.maximum_discount (raw_discount p amount)) amount)
          (cap_le p.maximum_discount maximum (raw_discount p amount) limited))
        m,
  )

  -- The three ways of a round.
  module _ (now : ℕ) (all : List (Promotion W)) (context : CartContext W) (c : Progress W)
      (p : Promotion W) where
    pub step_rejected :
        {r : RejectionReason}
        → rejection now all context c p ≡ some r
        → step now all context c p ≡ (reject p r context, c)
    unfolding step
    step_rejected rejected = ground (arith, rejected)

    pub step_shipping :
        rejection now all context c p ≡ none
        → is_shipping p.type ≡ true
        → step now all context c p ≡ apply_shipping context c p
    unfolding step
    step_shipping passed free = ground (arith, passed, free)

    pub step_order :
        rejection now all context c p ≡ none
        → is_shipping p.type ≡ false
        → step now all context c p ≡ apply_order context c p
    unfolding step
    step_order passed paid = ground (arith, passed, paid)

  -- What the loop keeps.
  record IsBounded (context : CartContext W) (c : Progress W) : Type 0 where
    lower : IsNonneg c.subtotal_after
    upper : (c.subtotal_after ≤? context.subtotal) ≡ true
    shipping : IsNonneg c.shipping_discount

  module _ (context : CartContext W) (subtotal_nonneg : IsNonneg context.subtotal)
      (fee_nonneg : IsNonneg context.shipping_fee) where
    waived : Promotion W → W
    waived p = least (raw_discount p (applicable_amount p context)) context.shipping_fee

    waived-IsNonneg :
        (p : Promotion W)
        → IsNonneg p.discount_value
        → is_shipping p.type ≡ true
        → IsNonneg (waived p)
    unfolding raw_discount waived
    waived-IsNonneg p value_nonneg free = ground (arith, value_nonneg, free, fee_nonneg)

    apply_shipping-IsBounded :
        (c : Progress W) (p : Promotion W)
        → IsNonneg (waived p)
        → IsBounded context c
        → IsBounded context (apply_shipping context c p).1
    unfolding waived
    apply_shipping-IsBounded c p n b = record {
      lower = b.lower;
      upper = b.upper;
      shipping = laws.add_nonneg c.shipping_discount _ b.shipping n;
    }

    apply_order-IsBounded :
        (c : Progress W) (p : Promotion W)
        → IsBounded context c
        → IsBounded context (apply_order context c p).1
    apply_order-IsBounded c p b = record {
      lower = IsNonneg-greatest _;
      upper =
          at_least_zero_le _ context.subtotal
            (laws.le_trans _ c.subtotal_after context.subtotal
              (laws.sub_le c.subtotal_after _ (discount-IsNonneg p _)) b.upper)
            subtotal_nonneg;
      shipping = b.shipping;
    }

    step-IsBounded :
        (now : ℕ) (all : List (Promotion W)) (c : Progress W) (p : Promotion W)
        → IsNonneg p.discount_value
        → IsBounded context c
        → IsBounded context (step now all context c p).1
    step-IsBounded now all c p n b = elim (Option-cases (rejection now all context c p)) [
      | inr (r, rejected) ↦ rw (step_rejected now all context c p rejected) b
      | inl passed ↦ elim (Bool-cases (is_shipping p.type)) [
        | inl free ↦
            rw (step_shipping now all context c p passed free)
              (apply_shipping-IsBounded c p (waived-IsNonneg p n free) b)
        | inr paid ↦ rw (step_order now all context c p passed paid) (apply_order-IsBounded c p b)
      ]
    ]

    rounds-IsBounded :
        (clock : ℕ → ℕ) (i : ℕ) (all : List (Promotion W)) (c : Progress W)
        (ps : List (Promotion W))
        → All (λ p. IsNonneg p.discount_value) ps
        → IsBounded context c
        → IsBounded context (rounds clock i all context c ps).1
    unfolding rounds
    rounds-IsBounded clock i all c [] a b = b
    rounds-IsBounded clock i all c (p ∷ ps) a b =
        rounds-IsBounded clock (suc i) all (step (clock i) all context c p).1 ps a.1
          (step-IsBounded (clock i) all c p a.0 b)

  -- Where neither the subtotal, nor the shipping fee, nor a discount value is negative, the final
  -- subtotal and the final shipping fee are not negative, and neither is above what it was before;
  -- the shipping discount is not negative.
  pub evaluate_within :
      (clock : ℕ → ℕ) (promotions : List (Promotion W)) (context : CartContext W)
      → IsNonneg context.subtotal
      → IsNonneg context.shipping_fee
      → All (λ p. IsNonneg p.discount_value) promotions
      → IsNonneg (evaluate clock promotions context).final_subtotal
        × (((evaluate clock promotions context).final_subtotal ≤? context.subtotal) ≡ true)
        × IsNonneg (evaluate clock promotions context).final_shipping_fee
        × (((evaluate clock promotions context).final_shipping_fee ≤? context.shipping_fee) ≡ true)
        × IsNonneg (evaluate clock promotions context).shipping_discount
  unfolding evaluate
  evaluate_within clock promotions context s f a =
      let b =
        rounds-IsBounded context s f clock 0 (sort promotions) (initial context) (sort promotions)
          (All-sort _ promotions a)
          (record {
            lower = s;
            upper = laws.le_refl context.subtotal;
            shipping = laws.le_refl w.zero;
          }) in
      (
        b.lower,
        b.upper,
        IsNonneg-greatest _,
        at_least_zero_le _ context.shipping_fee (laws.sub_le context.shipping_fee _ b.shipping) f,
        b.shipping,
      )
