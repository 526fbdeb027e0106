-- ===== src/Database/Shop.antt =====
-- The rows of the catalogue and of the cart that the cart and the checkout read and write
-- (apps/api/prisma/schema.prisma: Product, ProductVariant, Cart, CartItem). Ids are only compared, so
-- they are numbers; amounts are Decimal(20, 4), counted in ten-thousandths; of `deletedAt` it is only
-- asked whether it is set.
use smart_light.Prelude.{ℕ, ℤ, String, Bool, Option}

pub data ProductStatus : Type 0 where
  draft published unpublished archived : ProductStatus

pub data VariantStatus : Type 0 where
  active out_of_stock discontinued : VariantStatus

pub record Product : Type 0 where
  pub id : ℕ
  pub slug : String
  pub name : String
  pub status : ProductStatus
  pub is_deleted : Bool

pub record Variant : Type 0 where
  pub id : ℕ
  pub product_id : ℕ
  pub name : String
  pub sku : String
  pub price : ℤ
  pub compare_at_price : Option ℤ
  pub status : VariantStatus
  pub is_deleted : Bool

pub data CartStatus : Type 0 where
  active abandoned checked_out expired : CartStatus

pub record Cart : Type 0 where
  pub id : ℕ
  pub user_id : ℕ
  pub status : CartStatus
  pub currency : String
  pub subtotal : ℤ
  pub discount_total : ℤ
  pub tax_total : ℤ
  pub shipping_total : ℤ
  pub estimated_shipping : ℤ
  pub grand_total : ℤ
  pub item_count : ℤ
  pub selected_item_count : ℤ
  pub is_item_selected : Bool
  pub is_deleted : Bool

pub record CartItem : Type 0 where
  pub id : ℕ
  pub cart_id : ℕ
  pub product_variant_id : ℕ
  pub quantity : ℤ
  pub unit_price : ℤ
  pub subtotal : ℤ
  pub product_name_snapshot : String
  pub variant_name_snapshot : String
  pub sku_snapshot : String
  pub product_slug : String
  pub product_image_url : Option String
  pub is_selected : Bool
  pub notes : Option String
  pub is_deleted : Bool
