-- ===== src/Checkout/Held.antt =====
-- What `reserveInventory` holds and takes (modules/checkout/service.ts, lines 283-405).
use smart_light.Prelude.{
  ℕ, ◌+◌, ◌*◌, ℤ, pos, ◌+ℤ◌, ◌-ℤ◌, ◌≤ℤ◌, true, false, List, [], ◌∷◌, map, none, some, ◌≡◌, ◌⊎◌,
  refl, ap, sym, ◌∙◌, inl, inr, arith, ◌==◌, ==_iff, Option-cases, ok, err, Outcome-cases,
  if◌then◌else◌,
}
use smart_light.Table.{All, IsUnique, find_first}
use smart_light.Table.Rows.{find_first-holds, find_first-fits}
use smart_light.Table.Keys.{find_first-update}
use smart_light.Database.Shop.{Product, Variant}
use smart_light.Database.Stock.{Inventory}
use smart_light.Orders.Errors.{CheckoutSessionStatus, StockReservationStatus}
use smart_light.Orders.Tables.{CheckoutItem}
use smart_light.Checkout.Errors.{CheckoutError}
use smart_light.Checkout.Tables.{CheckoutSession, ReservationItem, StockReservation, CheckoutTables}
use smart_light.Checkout.Service.{
  find_by_id, find_by_id_for_user, items_of, reservation_of, variant_of, product_of, available_of,
  CheckoutResponse,
}
use smart_light.Checkout.Service.Create.{is_published, is_active_variant}
use smart_light.Checkout.Service.Reserve.{
  revalidate, take_stock, reserve_items, reservation_item_of, new_reservation, reserve_inventory,
}
use smart_light.Checkout.Rows.{IsBalanced, need, taken, taken-Moved, Moved}
use smart_light.Checkout.Outcomes.{wanted, reserved_tables, Reserved, reserve_inventory-cases}

-- An item whose product is published and whose variant is active, both not deleted, and of which there
-- is enough in stock.
pub record IsOffered (db : CheckoutTables) (i : CheckoutItem) : Type 0 where
  pub variant : Variant
  pub product : Product
  pub variant_found : variant_of i.product_variant_id db ≡ some variant
  pub product_found : product_of (some variant) db ≡ some product
  pub product_kept : product.is_deleted ≡ false
  pub published : is_published product.status ≡ true
  pub variant_kept : variant.is_deleted ≡ false
  pub active : is_active_variant variant.status ≡ true
  pub enough : i.quantity ≤ℤ available_of i.product_variant_id db

module _ (db : CheckoutTables) (i : CheckoutItem) where
  revalidate-IsOffered : revalidate db i ≡ none → IsOffered db i
  unfolding revalidate product_of
  revalidate-IsOffered fine = elim (Option-cases (variant_of i.product_variant_id db)) [
    | inl missing ↦ absurd (ground (arith, missing, fine))
    | inr (v, found) ↦ elim (Option-cases (product_of (some v) db)) [
      | inl gone ↦ absurd (ground (arith, found, gone, fine))
      | inr (p, made) ↦ record {
        variant = v;
        product = p;
        variant_found = found;
        product_found = made;
        product_kept = ground (arith, found, made, fine);
        published = ground (arith, found, made, fine);
        variant_kept = ground (arith, found, made, fine);
        active = ground (arith, found, made, fine);
        enough = grind (arith, found, made, fine);
      }
    ]
  ]

reserve_items-IsOffered :
    (read : CheckoutTables) (items : List CheckoutItem) (db s : CheckoutTables)
    → reserve_items read items db ≡ ok tt s
    → All (IsOffered read) items
unfolding reserve_items
reserve_items-IsOffered read [] db s made = tt
reserve_items-IsOffered read (i ∷ t) db s made = elim (Option-cases (revalidate read i)) [
  | inr (e, refused) ↦ absurd (ground (arith, refused, made))
  | inl fine ↦ elim (Outcome-cases (take_stock (reservation_item_of i) db)) [
    | inr (e, x, short) ↦ absurd (ground (arith, fine, short, made))
    | inl (_, x, enough) ↦ (
      revalidate-IsOffered read i fine,
      reserve_items-IsOffered read t x s (ground (arith, fine, enough, made)),
    )
  ]
]

-- How much of a variant the items of a session ask for.
abbrev pub asked : ℕ → List CheckoutItem → ℤ
asked v [] = pos 0
asked v (i ∷ t) = (if v == i.product_variant_id then i.quantity else pos 0) +ℤ asked v t

need-asked :
    (v : ℕ) (items : List CheckoutItem) → need v (map reservation_item_of items) ≡ asked v items
need-asked v [] = refl
need-asked v (i ∷ t) =
    ap (λ x. (if v == i.product_variant_id then i.quantity else pos 0) +ℤ x) (need-asked v t)

-- Row by row, what is asked for has gone from available to reserved, and no row is overdrawn.
abbrev pub TakenFrom : List CheckoutItem → List Inventory → List Inventory → Type 0
TakenFrom items [] [] = Unit
TakenFrom items (r ∷ rs) (s ∷ ss) =
    Moved (pos 0 -ℤ asked r.product_variant_id items) r s
    × (pos 0 ≤ℤ s.available)
    × TakenFrom items rs ss
TakenFrom items _ _ = ⊥

taken-TakenFrom :
    (items : List CheckoutItem) (t : List Inventory)
    → All IsBalanced (map (taken (map reservation_item_of items)) t)
    → TakenFrom items t (map (taken (map reservation_item_of items)) t)
taken-TakenFrom items [] a = tt
taken-TakenFrom items (r ∷ t) a = (
  rw (need-asked r.product_variant_id items) at (taken-Moved (map reservation_item_of items) r),
  a.0.available_positive,
  taken-TakenFrom items t a.1,
)

-- The variant and the quantity of an item.
abbrev pub line : CheckoutItem → ℕ × ℤ
line i = (i.product_variant_id, i.quantity)

abbrev pub held_line : ReservationItem → ℕ × ℤ
held_line i = (i.product_variant_id, i.quantity)

held_lines :
    (items : List CheckoutItem) → map held_line (map reservation_item_of items) ≡ map line items
held_lines [] = refl
held_lines (i ∷ t) = ap (λ x. line i ∷ x) (held_lines t)

-- An ACTIVE reservation of a user for what a session asks for, which ends in fifteen minutes.
pub record IsHolding (now user : ℕ) (items : List CheckoutItem) (r : StockReservation)
    : Type 0 where
  pub status : r.status ≡ StockReservationStatus.active
  pub user_id : r.user_id ≡ some user
  pub expires_at : r.expires_at ≡ now + 15 * 60000
  pub items_held : map held_line r.items ≡ map line items

module _ (now id user : ℕ) (db : CheckoutTables) where
  -- A session that is reserved.
  pub record Held : Type 0 where
    pub session : CheckoutSession
    pub found : find_by_id_for_user id user db ≡ some session
    pub fresh : session.status ≡ CheckoutSessionStatus.created
    pub offered : All (IsOffered db) (items_of id db)
    pub tables : CheckoutTables
    pub response : CheckoutResponse
    pub result : reserve_inventory now id user db ≡ ok response tables
    pub after : CheckoutSession
    pub after_found : find_by_id id tables ≡ some after
    pub after_status : after.status ≡ CheckoutSessionStatus.reserved
    pub reservation : StockReservation
    pub reservation_found : reservation_of id tables ≡ some reservation
    pub holding : IsHolding now user (items_of id db) reservation
    pub reservations : tables.stock_reservation ≡ reservation ∷ db.stock_reservation
    pub stock : TakenFrom (items_of id db) db.inventory tables.inventory
    pub items : tables.checkout_item ≡ db.checkout_item

  same_id : {s : CheckoutSession} → find_by_id_for_user id user db ≡ some s → s.id ≡ id
  unfolding find_by_id_for_user
  same_id {s} found =
      (==_iff s.id id).0 (ground (arith, find_first-holds _ db.checkout_session found))

  -- The session is RESERVED afterwards.
  session_after :
      {s : CheckoutSession}
      → find_by_id_for_user id user db ≡ some s
      → (x : CheckoutSession) × (find_by_id id (reserved_tables now s user (wanted id db) db)
          ≡ some x)
        × (x.status ≡ CheckoutSessionStatus.reserved)
  unfolding find_by_id find_by_id_for_user
  session_after {s} found =
      let own = same_id found in
      let x =
        find_first-fits _ (λ y. y.id == id) db.checkout_session found ((==_iff s.id id).1 own) in
      let hit : (x.0.id == s.id) ≡ true =
        (==_iff x.0.id s.id).1
          ((==_iff x.0.id id).0 (find_first-holds _ db.checkout_session x.1) ∙ sym own) in
      (
        record x.0 { status = CheckoutSessionStatus.reserved },
        find_first-update (λ y. y.id == id) (λ y. y.id == s.id)
              (λ y. record y { status = CheckoutSessionStatus.reserved }) db.checkout_session
              (λ y. refl) x.1
            ∙ ground (arith, hit),
        refl,
      )

  reservation_after :
      {s : CheckoutSession}
      → find_by_id_for_user id user db ≡ some s
      → reservation_of id (reserved_tables now s user (wanted id db) db)
        ≡ some (new_reservation now s user (wanted id db) db.next_id)
  unfolding reservation_of find_first
  reservation_after {s} found = ground (arith, (==_iff s.id id).1 (same_id found))

  Reserved-Held : Reserved now id user db → Held
  Reserved-Held m =
      let x = session_after m.found in
      record {
        session = m.session;
        found = m.found;
        fresh = ground (arith, m.fresh);
        offered = reserve_items-IsOffered db (items_of id db) db _ m.loop;
        tables = reserved_tables now m.session user (wanted id db) db;
        response = m.response;
        result = m.result;
        after = x.0;
        after_found = x.1;
        after_status = x.2;
        reservation = new_reservation now m.session user (wanted id db) db.next_id;
        reservation_found = reservation_after m.found;
        holding = record {
          status = refl;
          user_id = refl;
          expires_at = refl;
          items_held = held_lines (items_of id db);
        };
        reservations = refl;
        stock = taken-TakenFrom (items_of id db) db.inventory m.rows;
        items = refl;
      }

  -- In a stock of one balanced row for each variant: either a reservation throws and the tables are as
  -- before; or the user's session was CREATED and is RESERVED; each of its items is published, active,
  -- not deleted and enough in stock; a new ACTIVE reservation of the user, which ends in fifteen
  -- minutes, holds their variants and quantities; and in every row what they ask for has gone from
  -- available to reserved, without overdrawing it.
  pub reserve_inventory-effects :
      IsUnique (λ r. r.product_variant_id) db.inventory
      → All IsBalanced db.inventory
      → ((e : CheckoutError) × (reserve_inventory now id user db ≡ err e db)) ⊎ Held
  reserve_inventory-effects u balanced = elim (reserve_inventory-cases now id user db u balanced) [
    | inl thrown ↦ inl thrown
    | inr m ↦ inr (Reserved-Held m)
  ]
