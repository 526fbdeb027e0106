-- ===== src/Database/Stock.antt =====
-- The rows of the stock tables (apps/api/prisma/schema.prisma: Inventory, StockMovement,
-- InventoryAdjustment, and what the inventory service reads of ProductVariant with its Product).
-- Ids are only compared, so they are numbers; the time stamps that the service never reads are left
-- out.
use smart_light.Prelude.{ℕ, ℤ, String, Bool, Option}

-- A variant with the columns of its product that are read along with it.
pub record ProductVariant : Type 0 where
  pub id : ℕ
  pub sku : String
  pub product_name : String
  pub product_slug : String

pub record Inventory : Type 0 where
  pub id : ℕ
  pub product_variant_id : ℕ
  pub warehouse_code : String
  pub on_hand : ℤ
  pub reserved : ℤ
  pub available : ℤ
  pub low_stock_threshold : ℤ
  pub allow_backorder : Bool

pub data StockMovementType : Type 0 where
  import export sale reservation release return adjustment : StockMovementType

pub data ActorType : Type 0 where
  user admin_user system webhook anonymous : ActorType

pub data InventoryAdjustmentReason : Type 0 where
  count_correction damage loss receiving transfer initial_stock other : InventoryAdjustmentReason

pub data ReleaseReason : Type 0 where
  checkout_expired checkout_cancelled order_cancelled : ReleaseReason

pub data RestoreReason : Type 0 where
  return_received order_cancelled : RestoreReason

-- The texts that the service composes for `reason`, by their parts.
pub data MovementReason : Type 0 where
  -- `Reserved for ${referenceType.toLowerCase()} ${referenceId}`
  reserved_for : String → ℕ → MovementReason
  -- `Released: ${reason} (ref: ${referenceId})`
  released : ReleaseReason → ℕ → MovementReason
  -- `Sale confirmed for order ${orderId}`
  sale_confirmed : ℕ → MovementReason
  -- `${reason} (ref: ${referenceId})`
  restored : RestoreReason → ℕ → MovementReason
  -- a text that is passed in, or a fixed one
  note_text : String → MovementReason

pub record StockMovement : Type 0 where
  pub id : ℕ
  pub inventory_id : ℕ
  pub product_variant_id : ℕ
  pub type : StockMovementType
  pub quantity : ℤ
  pub on_hand_after : ℤ
  pub reserved_after : ℤ
  pub reason : MovementReason
  pub reference_type : String
  pub reference_id : ℕ
  pub created_by_type : ActorType
  pub created_by_id : Option ℕ

pub record InventoryAdjustment : Type 0 where
  pub id : ℕ
  pub inventory_id : ℕ
  pub product_variant_id : ℕ
  pub quantity_delta : ℤ
  pub on_hand_after : ℤ
  pub reason : InventoryAdjustmentReason
  pub note : Option String
  pub reference_type : String
  pub reference_id : ℕ
  pub created_by_id : Option ℕ
