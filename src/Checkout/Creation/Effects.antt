-- ===== src/Checkout/Creation/Effects.antt =====
-- What `createCheckout` writes (modules/checkout/service.ts, lines 165-229).
use smart_light.Prelude.{
  ℕ, ◌+◌, ◌*◌, ℤ, pos, ◌+ℤ◌, ◌*ℤ◌, String, false, List, [], ◌∷◌, ◌++◌, map, Option, some, ◌≡◌, ◌⊎◌,
  refl, ap, inl, inr, arith, ==_refl, ok, err,
}
use smart_light.Table.{All, find_first}
use smart_light.Database.Shop.{Cart, CartItem}
use smart_light.Orders.Errors.{CheckoutSessionStatus}
use smart_light.Orders.Tables.{CheckoutItem}
use smart_light.Checkout.Errors.{CheckoutError}
use smart_light.Checkout.Tables.{CheckoutSession, CheckoutTables}
use smart_light.Checkout.Service.{find_by_id}
use smart_light.Checkout.Service.Create.{
  CheckoutCreateResponse, active_cart, selected_items, subtotal_of, checkout_item_of, session_of,
  map_to_create_response, is_taken, is_empty, create_from_cart,
}
use smart_light.Checkout.Creation.{IsSellable, Created, created_tables, create_from_cart-cases}

-- What a list of cart items costs.
abbrev sum : List ℤ → ℤ
sum [] = pos 0
sum (x ∷ t) = x +ℤ sum t

abbrev price : CartItem → ℤ
price i = i.unit_price *ℤ i.quantity

subtotal_of-sum : (items : List CartItem) → subtotal_of items ≡ sum (map price items)
unfolding subtotal_of
subtotal_of-sum [] = refl
subtotal_of-sum (i ∷ t) = ap (λ x. price i +ℤ x) (subtotal_of-sum t)

-- An item of a session is a copy of an item of a cart.
pub record IsCopy (session : ℕ) (i : CartItem) (c : CheckoutItem) : Type 0 where
  pub session_id : c.session_id ≡ session
  pub variant : c.product_variant_id ≡ i.product_variant_id
  pub quantity : c.quantity ≡ i.quantity
  pub unit_price : c.unit_price_snapshot ≡ i.unit_price
  pub line_subtotal : c.line_subtotal_snapshot ≡ price i
  pub tax_amount : c.tax_amount_snapshot ≡ pos 0
  pub product_name : c.product_name_snapshot ≡ i.product_name_snapshot
  pub variant_name : c.variant_name_snapshot ≡ i.variant_name_snapshot
  pub sku : c.sku_snapshot ≡ i.sku_snapshot
  pub slug : c.product_slug ≡ i.product_slug
  pub image : c.product_image_url ≡ i.product_image_url

-- Each item is copied, in order, and nothing else.
abbrev pub Copies : ℕ → List CartItem → List CheckoutItem → Type 0
Copies session [] [] = Unit
Copies session (i ∷ is) (c ∷ cs) = IsCopy session i c × Copies session is cs
Copies session _ _ = ⊥

checkout_items-Copies :
    (session : ℕ) (items : List CartItem)
    → Copies session items (map (checkout_item_of session) items)
checkout_items-Copies session [] = tt
checkout_items-Copies session (i ∷ t) = (
  record {
    session_id = refl;
    variant = refl;
    quantity = refl;
    unit_price = refl;
    line_subtotal = refl;
    tax_amount = refl;
    product_name = refl;
    variant_name = refl;
    sku = refl;
    slug = refl;
    image = refl;
  },
  checkout_items-Copies session t,
)

-- A session of a user that was just made of a cart and what is selected in it.
pub record IsFresh (now user : ℕ) (key : Option String) (cart : Cart) (items : List CartItem)
    (s : CheckoutSession) : Type 0 where
  pub owner : s.user_id ≡ user
  pub cart_id : s.cart_id ≡ cart.id
  pub status : s.status ≡ CheckoutSessionStatus.created
  pub currency : s.currency ≡ cart.currency
  pub subtotal : s.totals.subtotal ≡ sum (map price items)
  pub grand_total : s.totals.grand_total ≡ sum (map price items)
  pub discount : s.totals.discount_amount ≡ pos 0
  pub idempotency_key : s.idempotency_key ≡ key
  pub expires_at : s.expires_at ≡ now + 15 * 60000

module _ (now user : ℕ) (key : Option String) (db : CheckoutTables) where
  -- A checkout that was made.
  pub record Started : Type 0 where
    pub cart : Cart
    pub found : active_cart user db ≡ some cart
    pub some_items : is_empty (selected_items cart.id db) ≡ false
    pub sellable : All (IsSellable db) (selected_items cart.id db)
    pub free : is_taken key db ≡ false
    pub tables : CheckoutTables
    pub response : CheckoutCreateResponse
    pub result : create_from_cart now user key db ≡ ok response tables
    pub session : CheckoutSession
    pub session_found : find_by_id response.id tables ≡ some session
    pub fresh : IsFresh now user key cart (selected_items cart.id db) session
    pub answered : response.totals ≡ session.totals
    pub new_items : List CheckoutItem
    pub items : tables.checkout_item ≡ new_items ++ db.checkout_item
    pub items_copied : Copies response.id (selected_items cart.id db) new_items
    pub stock : tables.inventory ≡ db.inventory
    pub carts : tables.cart_item ≡ db.cart_item

  Created-Started : Created now user key db → Started
  unfolding find_by_id find_first
  Created-Started c =
      let items = selected_items c.cart.id db in
      record {
        cart = c.cart;
        found = c.found;
        some_items = c.some_items;
        sellable = c.sellable;
        free = c.free;
        tables = created_tables now user key c.cart (selected_items c.cart.id db) db;
        response =
            map_to_create_response
              (session_of now user key c.cart (selected_items c.cart.id db) db.next_id);
        result = c.result;
        session = session_of now user key c.cart (selected_items c.cart.id db) db.next_id;
        session_found = ground (arith, ==_refl db.next_id);
        fresh = record {
          owner = refl;
          cart_id = refl;
          status = refl;
          currency = refl;
          subtotal = subtotal_of-sum (selected_items c.cart.id db);
          grand_total = subtotal_of-sum (selected_items c.cart.id db);
          discount = refl;
          idempotency_key = refl;
          expires_at = refl;
        };
        answered = refl;
        new_items = map (checkout_item_of db.next_id) (selected_items c.cart.id db);
        items = refl;
        items_copied = checkout_items-Copies db.next_id (selected_items c.cart.id db);
        stock = refl;
        carts = refl;
      }

  -- Either `createCheckout`, past its idempotency key, throws and the tables are as before; or the user
  -- has an active cart with selected items, each of them published, active, not deleted and enough in
  -- stock; the answer names a CREATED session of the user and the cart, which ends in fifteen minutes
  -- and whose total is the sum of price times quantity; its items are copies of the selected ones, in
  -- order; and the stock and the carts are as before.
  pub create_from_cart-effects :
      ((e : CheckoutError) × (create_from_cart now user key db ≡ err e db)) ⊎ Started
  create_from_cart-effects = elim (create_from_cart-cases now user key db) [
    | inl thrown ↦ inl thrown
    | inr c ↦ inr (Created-Started c)
  ]
