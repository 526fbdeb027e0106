-- ===== src/Promotions/Engine.antt =====
-- modules/promotions/entities/promotion.engine.ts.
pub mod Bounds
pub mod Stacking
pub mod Order
pub mod Single
use smart_light.Prelude.{
  ℕ, suc, ℤ, eqb_ℤ, ltb_ℤ, Bool, true, false, not, ◌&&◌, ◌||◌, List, [], ◌∷◌, Option, none, some,
  ◌==◌, ltb, leb, if◌then◌else◌,
}
use smart_light.Promotions.Types.{
  CartContext, CartItem, DiscountScope, Evaluation, Progress, Promotion, PromotionCategory,
  PromotionType, RejectionReason, StackResult, expired, fixed_amount, flash_sale,
  flash_sale_cannot_stack, free_shipping, is_flash_sale, is_percentage, is_shipping,
  min_order_not_met, no_eligible_items, not_started, order_category, percentage, shipping_category,
  stacking_not_allowed, to_promotion_category,
}
use smart_light.Promotions.Amount.{Amount, ◌≤?◌, ◌<?◌, is_equal, least, greatest}

-- `new Set(…).has`
unfoldable pub has : List ℕ → ℕ → Bool
has [] x = false
has (a ∷ t) x = (a == x) || has t x

-- `id ? set.has(id) : false`
abbrev pub has_some : List ℕ → Option ℕ → Bool
has_some t none = false
has_some t (some x) = has t x

module _ {W : Type 0} ⦃w : Amount W⦄ where
  -- The comparison of `sort`: by priority, the highest first, then by age, the oldest first.
  abbrev pub comes_before : Promotion W → Promotion W → Bool
  comes_before a b =
      if eqb_ℤ b.priority a.priority
      then ltb a.created_at b.created_at
      else ltb_ℤ b.priority a.priority

  -- `sort` is stable.
  unfoldable pub insert : Promotion W → List (Promotion W) → List (Promotion W)
  insert p [] = p ∷ []
  insert p (q ∷ t) = let rest = insert p t in if comes_before q p then q ∷ rest else p ∷ q ∷ t

  unfoldable pub sort : List (Promotion W) → List (Promotion W)
  sort [] = []
  sort (p ∷ t) = insert p (sort t)

  unfoldable pub is_eligible : Promotion W → CartItem W → Bool
  is_eligible p item = elim p.scope [
    | DiscountScope.order ↦ true
    | DiscountScope.product ↦ has p.product_targets item.product_variant_id
    | DiscountScope.category ↦ has_some p.category_targets item.category_id
    | DiscountScope.brand ↦ has_some p.brand_targets item.brand_id
  ]

  -- `applicableAmount`, summed from the first item on.
  unfoldable pub eligible_sum : Promotion W → W → List (CartItem W) → W
  eligible_sum p sum [] = sum
  eligible_sum p sum (item ∷ items) =
      eligible_sum p (w.add sum (if is_eligible p item then item.line_subtotal else w.zero)) items

  unfoldable pub applicable_amount : Promotion W → CartContext W → W
  applicable_amount p context = eligible_sum p w.zero context.items

  abbrev pub percent_of : W → W → W
  percent_of value amount = w.div (w.mul amount (least value w.hundred)) w.hundred

  unfoldable pub raw_discount : Promotion W → W → W
  raw_discount p amount = elim p.type [
    | percentage ↦ percent_of p.discount_value amount
    | flash_sale ↦ percent_of p.discount_value amount
    | fixed_amount ↦ least p.discount_value amount
    | free_shipping ↦ p.discount_value
  ]

  abbrev pub cap : Option W → W → W
  cap none x = x
  cap (some m) x = if m <? x then m else x

  -- The `discount` of `computeDiscount`.
  unfoldable pub discount : Promotion W → W → W
  discount p amount =
      greatest (least (cap p.maximum_discount (raw_discount p amount)) amount) w.zero

  abbrev pub reject : Promotion W → RejectionReason → CartContext W → Evaluation W
  reject p reason context = record {
    promotion_id = p.id;
    type = p.type;
    reason = some reason;
    discount_amount = w.zero;
    subtotal_after = context.subtotal;
  }

  -- The checks that `validate` makes too, after the window.
  unfoldable pub unmet : Promotion W → CartContext W → Option RejectionReason
  unmet p context =
      let amount = applicable_amount p context in
      if is_equal amount w.zero && not (is_shipping p.type)
      then some no_eligible_items
      else if (w.zero <? p.minimum_order_value) && (amount <? p.minimum_order_value)
      then some min_order_not_met
      else none

  -- `now < startAt`, `now > endAt`
  abbrev pub outside_window : ℕ → Promotion W → Option RejectionReason
  outside_window now p =
      if ltb now p.start_at
      then some not_started
      else if ltb p.end_at now
      then some expired
      else none

  unfoldable pub validate : ℕ → Promotion W → CartContext W → Evaluation W
  validate now p context = elim (outside_window now p) [
    | some r ↦ reject p r context
    | none ↦ elim (unmet p context) [
      | some r ↦ reject p r context
      | none ↦
          let d = discount p (applicable_amount p context) in
          record {
            promotion_id = p.id;
            type = p.type;
            reason = none;
            discount_amount = d;
            subtotal_after = greatest w.zero (w.sub context.subtotal d);
          }
    ]
  ]

  -- `sorted.some(p => p.id !== promo.id && p.type === 'PERCENTAGE')`
  unfoldable pub has_percentage : ℕ → List (Promotion W) → Bool
  has_percentage id [] = false
  has_percentage id (q ∷ t) = (not (q.id == id) && is_percentage q.type) || has_percentage id t

  -- The promotions of the category of `p` that have been applied.
  abbrev pub applied_before : Promotion W → Progress W → ℕ
  applied_before p c =
      if is_shipping p.type then c.shipping_promotions_applied else c.order_promotions_applied

  -- The checks of the loop body, in their order; `all` is the sorted list.
  unfoldable pub rejection :
      ℕ → List (Promotion W) → CartContext W → Progress W → Promotion W → Option RejectionReason
  rejection now all context c p = elim (outside_window now p) [
    | some r ↦ some r
    | none ↦
        if leb 1 (applied_before p c) && not p.stackable
        then some stacking_not_allowed
        else if is_flash_sale p.type && has_percentage p.id all
        then some flash_sale_cannot_stack
        else unmet p context
  ]

  -- The rest of the loop body, for a promotion that is applied.
  abbrev pub apply_shipping : CartContext W → Progress W → Promotion W → Evaluation W × Progress W
  apply_shipping context c p =
      let shipping = least (raw_discount p (applicable_amount p context)) context.shipping_fee in
      (
        record {
          promotion_id = p.id;
          type = p.type;
          reason = none;
          discount_amount = shipping;
          subtotal_after = c.subtotal_after;
        },
        record c {
          shipping_discount = w.add c.shipping_discount shipping;
          shipping_promotions_applied = suc c.shipping_promotions_applied;
        },
      )

  abbrev pub apply_order : CartContext W → Progress W → Promotion W → Evaluation W × Progress W
  apply_order context c p =
      let d = discount p (applicable_amount p context) in
      (
        record {
          promotion_id = p.id;
          type = p.type;
          reason = none;
          discount_amount = d;
          subtotal_after = greatest w.zero (w.sub c.subtotal_after d);
        },
        record c {
          subtotal_after = greatest w.zero (w.sub c.subtotal_after d);
          order_promotions_applied = suc c.order_promotions_applied;
        },
      )

  unfoldable pub step :
      ℕ → List (Promotion W) → CartContext W → Progress W → Promotion W → Evaluation W × Progress W
  step now all context c p = elim (rejection now all context c p) [
    | some r ↦ (reject p r context, c)
    | none ↦ if is_shipping p.type then apply_shipping context c p else apply_order context c p
  ]

  -- The loop. `clock i` is what `new Date()` gives in round `i`.
  unfoldable pub rounds :
      (ℕ → ℕ)
      → ℕ
      → List (Promotion W)
      → CartContext W
      → Progress W
      → List (Promotion W)
      → List (Evaluation W) × Progress W
  rounds clock i all context c [] = ([], c)
  rounds clock i all context c (p ∷ ps) =
      let (e, c') = step (clock i) all context c p in
      let (es, c'') = rounds clock (suc i) all context c' ps in (e ∷ es, c'')

  abbrev pub is_applied_order : Evaluation W → Bool
  is_applied_order e = elim e.reason [ none ↦ not (is_shipping e.type) | some _ ↦ false ]

  unfoldable pub order_sum : W → List (Evaluation W) → W
  order_sum sum [] = sum
  order_sum sum (e ∷ es) =
      order_sum (if is_applied_order e then w.add sum e.discount_amount else sum) es

  abbrev pub initial : CartContext W → Progress W
  initial context = record {
    subtotal_after = context.subtotal;
    shipping_discount = w.zero;
    order_promotions_applied = 0;
    shipping_promotions_applied = 0;
  }

  unfoldable pub evaluate : (ℕ → ℕ) → List (Promotion W) → CartContext W → StackResult W
  evaluate clock promotions context =
      let sorted = sort promotions in
      let (evaluations, c) = rounds clock 0 sorted context (initial context) sorted in
      record {
        order_discount = order_sum w.zero evaluations;
        shipping_discount = c.shipping_discount;
        evaluations = evaluations;
        final_subtotal = c.subtotal_after;
        final_shipping_fee = greatest w.zero (w.sub context.shipping_fee c.shipping_discount);
      }
