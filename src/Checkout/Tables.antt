-- ===== src/Checkout/Tables.antt =====
-- The rows that the checkout reads and writes (apps/api/prisma/schema.prisma: CheckoutSession,
-- StockReservation, ReservationItem), beside those of the stock, the cart and the catalogue. Items of a
-- checkout and addresses are those that orders are made from. Time is counted in milliseconds.
use smart_light.Prelude.{ℕ, suc, ℤ, String, List, Option, Action, ok}
use smart_light.Database.Stock.{Inventory}
use smart_light.Database.Shop.{Product, Variant, Cart, CartItem}
use smart_light.Orders.Errors.{CheckoutSessionStatus, StockReservationStatus}
use smart_light.Orders.Tables.{Address, Totals, CheckoutItem}
use smart_light.Checkout.Errors.{CheckoutError}

pub record CheckoutSession : Type 0 where
  pub id : ℕ
  pub cart_id : ℕ
  pub user_id : ℕ
  pub status : CheckoutSessionStatus
  pub shipping : Address
  pub billing : Address
  pub currency : String
  pub totals : Totals
  pub coupon_code : Option String
  pub idempotency_key : Option String
  pub expires_at : ℕ
  pub cancelled_at : Option ℕ

pub record ReservationItem : Type 0 where
  pub product_variant_id : ℕ
  pub quantity : ℤ

pub data ReleaseNote : Type 0 where
  checkout_cancelled checkout_expired : ReleaseNote

-- A reservation with its items, which are written along with it and only read through it.
pub record StockReservation : Type 0 where
  pub id : ℕ
  pub checkout_session_id : Option ℕ
  pub cart_id : Option ℕ
  pub user_id : Option ℕ
  pub status : StockReservationStatus
  pub expires_at : ℕ
  pub released_at : Option ℕ
  pub released_reason : Option ReleaseNote
  pub items : List ReservationItem

-- The newest row of a table stands first.
pub record CheckoutTables : Type 0 where
  pub product : List Product
  pub variant : List Variant
  pub inventory : List Inventory
  pub cart : List Cart
  pub cart_item : List CartItem
  pub checkout_session : List CheckoutSession
  pub checkout_item : List CheckoutItem
  pub stock_reservation : List StockReservation
  -- `@default(cuid())`: the next id that is given out
  pub next_id : ℕ

abbrev pub Chk : Type 0 → Type 0
Chk A = Action CheckoutTables CheckoutError A

-- The id of a row that is created.
abbrev pub new_id : Chk ℕ
new_id db = ok db.next_id (record db { next_id = suc db.next_id })
