-- ===== src/Promotions/Tests.antt =====
-- The theorems of the promotion engine on a small cart, in whole numbers.
use smart_light.Prelude.{ℕ, ◌≤◌, pos, true, false, List, [], ◌∷◌, none, some, ◌≡◌, refl, map, leb}
use smart_light.Promotions.Amount.{whole, ℕ-IsOrdered, IsOrdered}
use smart_light.Promotions.Types.{Promotion, CartContext, PromotionType, DiscountScope}
use smart_light.Promotions.Engine.{discount, evaluate, validate, sort}
use smart_light.Promotions.Engine.Bounds.{discount_within, evaluate_within}
use smart_light.Promotions.Engine.Stacking.{
  applied_count, evaluate_one_of_each, evaluate-sort, IsByPriority,
}
use smart_light.Promotions.Engine.Single.{evaluate-validate}
use smart_light.Promotions.Engine.Order.{occurrences}

instance abbrev ordered : IsOrdered ℕ
ordered = ℕ-IsOrdered

-- A fifth off the order, thirty off the order, and ten off the shipping fee.
abbrev fifth_off : Promotion ℕ
fifth_off = record {
  id = 1;
  type = PromotionType.percentage;
  scope = DiscountScope.order;
  discount_value = 20;
  minimum_order_value = 0;
  maximum_discount = some 15;
  start_at = 0;
  end_at = 100;
  priority = pos 2;
  stackable = false;
  product_targets = [];
  category_targets = [];
  brand_targets = [];
  created_at = 0;
}

abbrev thirty_off : Promotion ℕ
thirty_off = record fifth_off {
  id = 2;
  type = PromotionType.fixed_amount;
  discount_value = 30;
  maximum_discount = none;
  priority = pos 3;
}

abbrev ten_off_shipping : Promotion ℕ
ten_off_shipping = record thirty_off {
  id = 3;
  type = PromotionType.free_shipping;
  discount_value = 10;
}

abbrev cart : CartContext ℕ
cart = record {
  items =
      record { product_variant_id = 7; category_id = none; brand_id = none; line_subtotal = 100 }
      ∷ [];
  shipping_fee = 25;
  subtotal = 100;
}

abbrev offers : List (Promotion ℕ)
offers = fifth_off ∷ thirty_off ∷ ten_off_shipping ∷ []

abbrev noon : ℕ → ℕ
noon i = 50

discount_within_example :
    (leb 0 (discount fifth_off 100) ≡ true)
    × (leb (discount fifth_off 100) 100 ≡ true)
    × (leb (discount fifth_off 100) 15 ≡ true)
discount_within_example = discount_within fifth_off 100 15 refl refl refl

evaluate_within_example :
    (leb 0 (evaluate noon offers cart).final_subtotal ≡ true)
    × (leb (evaluate noon offers cart).final_subtotal 100 ≡ true)
    × (leb 0 (evaluate noon offers cart).final_shipping_fee ≡ true)
    × (leb (evaluate noon offers cart).final_shipping_fee 25 ≡ true)
    × (leb 0 (evaluate noon offers cart).shipping_discount ≡ true)
evaluate_within_example = evaluate_within noon offers cart refl refl (refl, (refl, (refl, tt)))

evaluate-sort_example :
    (map (λ e. e.promotion_id) (evaluate noon offers cart).evaluations
      ≡ map (λ p. p.id) (sort offers))
    × ((id : ℕ) → occurrences id (sort offers) ≡ occurrences id offers)
    × IsByPriority (sort offers)
evaluate-sort_example = evaluate-sort noon offers cart

evaluate_one_of_each_example :
    (applied_count true (evaluate noon offers cart).evaluations ≤ 1)
    × (applied_count false (evaluate noon offers cart).evaluations ≤ 1)
evaluate_one_of_each_example = evaluate_one_of_each noon offers cart (refl, (refl, (refl, tt)))

evaluate-validate_example :
    (evaluate noon (fifth_off ∷ []) cart).evaluations ≡ validate 50 fifth_off cart ∷ []
evaluate-validate_example = evaluate-validate noon fifth_off cart refl
