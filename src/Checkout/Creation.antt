-- ===== src/Checkout/Creation.antt =====
-- `createCheckout` branch by branch (modules/checkout/service.ts, lines 78-229).
pub mod Effects
use smart_light.Prelude.{
  ℕ, suc, ◌≤ℤ◌, ltb_ℤ, String, true, false, List, [], ◌∷◌, ◌++◌, map, Option, none, some, ◌≡◌, ◌⊎◌,
  refl, inl, inr, arith, Bool-cases, Option-cases, Outcome, ok, err,
}
use smart_light.Table.{All}
use smart_light.Database.Shop.{Product, Variant, Cart, CartItem}
use smart_light.Checkout.Errors.{
  CheckoutError, checkout_not_found, no_selected_items, product_unavailable, variant_unavailable,
  variant_deleted, variant_inactive, insufficient_stock, unique_violation,
}
use smart_light.Checkout.Tables.{CheckoutSession, CheckoutTables}
use smart_light.Checkout.Service.{variant_of, product_of, available_of}
use smart_light.Checkout.Service.Create.{
  is_published, is_active_variant, map_to_create_response, active_cart, selected_items,
  validate_item, validate_items, checkout_item_of, session_of, is_taken, is_empty, create_from_cart,
  replayed, create_checkout,
}

-- An item whose product is published and whose variant is active, both not deleted, and of which there
-- is enough in stock.
pub record IsSellable (db : CheckoutTables) (i : CartItem) : Type 0 where
  pub variant : Variant
  pub product : Product
  pub variant_found : variant_of i.product_variant_id db ≡ some variant
  pub product_found : product_of (some variant) db ≡ some product
  pub published : is_published product.status ≡ true
  pub product_kept : product.is_deleted ≡ false
  pub active : is_active_variant variant.status ≡ true
  pub variant_kept : variant.is_deleted ≡ false
  pub enough : i.quantity ≤ℤ available_of i.product_variant_id db

-- A test that throws or lets the item pass, and leaves the tables alone.
abbrev Passes : CheckoutTables → Type 0 → Outcome CheckoutTables CheckoutError (Unit {0}) → Type 0
Passes db P o = ((e : CheckoutError) × (o ≡ err e db)) ⊎ ((o ≡ ok tt db) × P)

module _ (i : CartItem) (db : CheckoutTables) {variant : Variant} {product : Product}
    (found : variant_of i.product_variant_id db ≡ some variant)
    (made : product_of (some variant) db ≡ some product) where
  passing :
      product.is_deleted ≡ false
      → is_published product.status ≡ true
      → variant.is_deleted ≡ false
      → is_active_variant variant.status ≡ true
      → ltb_ℤ (available_of i.product_variant_id db) i.quantity ≡ false
      → Passes db (IsSellable db i) (validate_item i db)
  unfolding validate_item
  passing kept public variant_kept active enough = inr (
    ground (arith, found, made, kept, public, variant_kept, active, enough),
    record {
      variant = variant;
      product = product;
      variant_found = found;
      product_found = made;
      published = public;
      product_kept = kept;
      active = active;
      variant_kept = variant_kept;
      enough = grind (arith, enough);
    },
  )

  validate_found : Passes db (IsSellable db i) (validate_item i db)
  unfolding validate_item
  validate_found = elim (Bool-cases product.is_deleted) [
    | inl gone ↦ inl (product_unavailable i.product_variant_id, ground (arith, found, made, gone))
    | inr kept ↦ elim (Bool-cases (is_published product.status)) [
      | inr hidden ↦ inl (product_unavailable product.id, ground (arith, found, made, kept, hidden))
      | inl public ↦ elim (Bool-cases variant.is_deleted) [
        | inl gone ↦ inl (
          variant_unavailable i.product_variant_id variant_deleted,
          ground (arith, found, made, kept, public, gone),
        )
        | inr variant_kept ↦ elim (Bool-cases (is_active_variant variant.status)) [
          | inr off ↦ inl (
            variant_unavailable i.product_variant_id variant_inactive,
            ground (arith, found, made, kept, public, variant_kept, off),
          )
          | inl active ↦
              elim (Bool-cases (ltb_ℤ (available_of i.product_variant_id db) i.quantity)) [
                | inl short ↦ inl (
                  insufficient_stock i.product_variant_id i.quantity
                      (available_of i.product_variant_id db),
                  ground (arith, found, made, kept, public, variant_kept, active, short),
                )
                | inr enough ↦ passing kept public variant_kept active enough
              ]
        ]
      ]
    ]
  ]

validate_item-cases :
    (i : CartItem) (db : CheckoutTables) → Passes db (IsSellable db i) (validate_item i db)
unfolding validate_item product_of
validate_item-cases i db = elim (Option-cases (variant_of i.product_variant_id db)) [
  | inl missing ↦ inl (product_unavailable i.product_variant_id, ground (arith, missing))
  | inr (variant, found) ↦ elim (Option-cases (product_of (some variant) db)) [
    | inl gone ↦ inl (product_unavailable i.product_variant_id, ground (arith, found, gone))
    | inr (product, made) ↦ validate_found i db found made
  ]
]

validate_items-cases :
    (items : List CartItem) (db : CheckoutTables)
    → Passes db (All (IsSellable db) items) (validate_items items db)
unfolding validate_items
validate_items-cases [] db = inr (refl, tt)
validate_items-cases (i ∷ t) db = elim (validate_item-cases i db) [
  | inl (e, thrown) ↦ inl (e, ground (arith, thrown))
  | inr (passed, sells) ↦ elim (validate_items-cases t db) [
    | inl (e, thrown) ↦ inl (e, ground (arith, passed, thrown))
    | inr (rest, all) ↦ inr (ground (arith, passed, rest), (sells, all))
  ]
]

abbrev pub created_tables :
    ℕ → ℕ → Option String → Cart → List CartItem → CheckoutTables → CheckoutTables
created_tables now user key cart items db = record db {
  next_id = suc db.next_id;
  checkout_session = session_of now user key cart items db.next_id ∷ db.checkout_session;
  checkout_item = map (checkout_item_of db.next_id) items ++ db.checkout_item;
}

-- A checkout that was made from a cart.
pub record Created (now user : ℕ) (key : Option String) (db : CheckoutTables) : Type 0 where
  pub cart : Cart
  pub found : active_cart user db ≡ some cart
  pub some_items : is_empty (selected_items cart.id db) ≡ false
  pub sellable : All (IsSellable db) (selected_items cart.id db)
  pub free : is_taken key db ≡ false
  pub result :
      create_from_cart now user key db
      ≡ ok
          (map_to_create_response
            (session_of now user key cart (selected_items cart.id db) db.next_id))
          (created_tables now user key cart (selected_items cart.id db) db)

-- Either `createCheckout`, past its idempotency key, throws and the tables are as before, or the user has
-- an active cart with selected items; each of them is published, active, not deleted and enough in
-- stock; and the session and its items are a snapshot of them, with the sum of price times quantity as
-- its total.
pub create_from_cart-cases :
    (now user : ℕ) (key : Option String) (db : CheckoutTables)
    → ((e : CheckoutError) × (create_from_cart now user key db ≡ err e db))
      ⊎ Created now user key db
unfolding create_from_cart
create_from_cart-cases now user key db = elim (Option-cases (active_cart user db)) [
  | inl missing ↦ inl (checkout_not_found none, ground (arith, missing))
  | inr (cart, found) ↦ elim (Bool-cases (is_empty (selected_items cart.id db))) [
    | inl empty ↦ inl (no_selected_items, ground (arith, found, empty))
    | inr nonempty ↦ elim (validate_items-cases (selected_items cart.id db) db) [
      | inl (e, thrown) ↦ inl (e, ground (arith, found, nonempty, thrown))
      | inr (passed, sells) ↦ elim (Bool-cases (is_taken key db)) [
        | inl taken ↦ inl (unique_violation, ground (arith, found, nonempty, passed, taken))
        | inr free ↦ inr (record {
          cart = cart;
          found = found;
          some_items = nonempty;
          sellable = sells;
          free = free;
          result = ground (arith, found, nonempty, passed, free);
        })
      ]
    ]
  ]
]

pub create_checkout-replayed :
    (now user : ℕ) (key : Option String) (db : CheckoutTables) {s : CheckoutSession}
    → replayed user key db ≡ some s
    → create_checkout now user key db ≡ ok (map_to_create_response s) db
unfolding create_checkout
create_checkout-replayed now user key db again = ground (arith, again)

pub create_checkout_first :
    (now user : ℕ) (key : Option String) (db : CheckoutTables)
    → replayed user key db ≡ none
    → create_checkout now user key db ≡ create_from_cart now user key db
unfolding create_checkout
create_checkout_first now user key db first = ground (arith, first)
