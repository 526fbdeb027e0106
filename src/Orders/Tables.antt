-- ===== src/Orders/Tables.antt =====
-- The rows that the orders module reads and writes (apps/api/prisma/schema.prisma: CheckoutSession,
-- CheckoutItem, StockReservation, Order, OrderItem, OrderStatusHistory). Ids are only compared, so
-- they are numbers; amounts are Decimal(20, 4), counted in ten-thousandths, and are only copied;
-- time stamps are left out, but for `deletedAt`, of which the module asks whether it is set.
use smart_light.Prelude.{ℕ, suc, ℤ, String, Bool, List, Option, Action, ok}
use smart_light.Orders.Status.{OrderStatus}
use smart_light.Orders.Errors.{CheckoutSessionStatus, StockReservationStatus, OrderError}

pub record Address : Type 0 where
  pub full_name : Option String
  pub phone : Option String
  pub province : Option String
  pub district : Option String
  pub ward : Option String
  pub detail : Option String

pub record Totals : Type 0 where
  pub subtotal : ℤ
  pub discount_amount : ℤ
  pub shipping_fee : ℤ
  pub tax_amount : ℤ
  pub grand_total : ℤ

pub record CheckoutSession : Type 0 where
  pub id : ℕ
  pub cart_id : ℕ
  pub user_id : ℕ
  pub status : CheckoutSessionStatus
  pub shipping : Address
  pub billing : Address
  pub currency : String
  pub totals : Totals
  pub coupon_code : Option String

pub record CheckoutItem : Type 0 where
  pub session_id : ℕ
  pub product_variant_id : ℕ
  pub quantity : ℤ
  pub unit_price_snapshot : ℤ
  pub line_subtotal_snapshot : ℤ
  pub tax_amount_snapshot : ℤ
  pub product_name_snapshot : String
  pub variant_name_snapshot : String
  pub sku_snapshot : String
  pub product_slug : String
  pub product_image_url : Option String

-- What is read of a product variant.
pub record VariantWeight : Type 0 where
  pub id : ℕ
  pub weight_grams : Option ℤ

pub record StockReservation : Type 0 where
  pub id : ℕ
  pub checkout_session_id : Option ℕ
  pub status : StockReservationStatus

pub data OrderPaymentStatus : Type 0 where
  unpaid paid failed refunded : OrderPaymentStatus

pub record Order : Type 0 where
  pub id : ℕ
  pub order_number : String
  pub user_id : ℕ
  pub checkout_session_id : Option ℕ
  pub cart_id : Option ℕ
  pub reservation_id : Option ℕ
  pub status : OrderStatus
  pub payment_status : OrderPaymentStatus
  pub currency : String
  pub locale : String
  pub totals : Totals
  pub shipping : Address
  pub billing : Address
  pub coupon_code : Option String
  pub customer_notes : Option String
  pub cancel_reason : Option String
  pub cancelled_by_id : Option ℕ
  pub is_deleted : Bool

pub record OrderItem : Type 0 where
  pub id : ℕ
  pub order_id : ℕ
  pub product_variant_id : ℕ
  pub quantity : ℤ
  pub unit_price_snapshot : ℤ
  pub line_subtotal_snapshot : ℤ
  pub tax_amount_snapshot : ℤ
  pub product_name_snapshot : String
  pub variant_name_snapshot : String
  pub sku_snapshot : String
  pub product_slug_snapshot : String
  pub image_snapshot_url : Option String
  pub weight_grams_snapshot : Option ℤ

pub data ChangedByType : Type 0 where
  customer admin admin_user system webhook : ChangedByType

pub record OrderStatusHistory : Type 0 where
  pub id : ℕ
  pub order_id : ℕ
  pub from_status : Option OrderStatus
  pub to_status : OrderStatus
  pub changed_by_type : ChangedByType
  pub changed_by_id : Option ℕ
  pub changed_by_name : Option String
  pub reason : Option String

-- The newest row of a table stands first.
pub record OrderTables : Type 0 where
  pub checkout_session : List CheckoutSession
  pub checkout_item : List CheckoutItem
  pub stock_reservation : List StockReservation
  pub product_variant : List VariantWeight
  pub order : List Order
  pub order_item : List OrderItem
  pub order_status_history : List OrderStatusHistory
  -- `@default(cuid())`: the next id that is given out
  pub next_id : ℕ

abbrev pub Ord : Type 0 → Type 0
Ord A = Action OrderTables OrderError A

-- The id of a row that is created.
abbrev pub new_id : Ord ℕ
new_id db = ok db.next_id (record db { next_id = suc db.next_id })
