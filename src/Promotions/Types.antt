-- ===== src/Promotions/Types.antt =====
-- modules/promotions/entities/promotion-engine.types.ts and promotion.engine.ts, lines 372-389: what
-- the promotion engine reads and answers.
use smart_light.Prelude.{ℕ, ℤ, Bool, true, false, List, Option}

pub data PromotionType : Type 0 where
  percentage fixed_amount free_shipping flash_sale : PromotionType

pub data DiscountScope : Type 0 where
  order product category brand : DiscountScope

pub data PromotionCategory : Type 0 where
  order_category shipping_category : PromotionCategory

-- `toPromotionCategory`
unfoldable pub to_promotion_category : PromotionType → PromotionCategory
to_promotion_category free_shipping = shipping_category
to_promotion_category _ = order_category

abbrev pub is_shipping : PromotionType → Bool
is_shipping free_shipping = true
is_shipping _ = false

abbrev pub is_percentage : PromotionType → Bool
is_percentage percentage = true
is_percentage _ = false

abbrev pub is_flash_sale : PromotionType → Bool
is_flash_sale flash_sale = true
is_flash_sale _ = false

-- A moment is a number of milliseconds.
pub record Promotion (W : Type 0) : Type 0 where
  pub id : ℕ
  pub type : PromotionType
  pub scope : DiscountScope
  pub discount_value : W
  pub minimum_order_value : W
  pub maximum_discount : Option W
  pub start_at : ℕ
  pub end_at : ℕ
  pub priority : ℤ
  pub stackable : Bool
  pub product_targets : List ℕ
  pub category_targets : List ℕ
  pub brand_targets : List ℕ
  pub created_at : ℕ

pub record CartItem (W : Type 0) : Type 0 where
  pub product_variant_id : ℕ
  pub category_id : Option ℕ
  pub brand_id : Option ℕ
  pub line_subtotal : W

pub record CartContext (W : Type 0) : Type 0 where
  pub items : List (CartItem W)
  pub shipping_fee : W
  pub subtotal : W

pub data RejectionReason : Type 0 where
  not_started expired stacking_not_allowed flash_sale_cannot_stack no_eligible_items
        min_order_not_met :
      RejectionReason

-- `status` is APPLIED where there is no reason, and REJECTED where there is one; `lines` is always
-- empty and left out.
pub record Evaluation (W : Type 0) : Type 0 where
  pub promotion_id : ℕ
  pub type : PromotionType
  pub reason : Option RejectionReason
  pub discount_amount : W
  pub subtotal_after : W

pub record StackResult (W : Type 0) : Type 0 where
  pub order_discount : W
  pub shipping_discount : W
  pub evaluations : List (Evaluation W)
  pub final_subtotal : W
  pub final_shipping_fee : W

-- The variables of the loop.
pub record Progress (W : Type 0) : Type 0 where
  pub subtotal_after : W
  pub shipping_discount : W
  pub order_promotions_applied : ℕ
  pub shipping_promotions_applied : ℕ
