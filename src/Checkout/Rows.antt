-- ===== src/Checkout/Rows.antt =====
-- What the loops of `reserveInventory`, `cancelCheckout` and `expireCheckout` do to one row of the
-- stock (modules/checkout/service.ts, lines 315-364, 427-436 and 482-491).
use smart_light.Prelude.{
  ℕ, ℤ, pos, ◌+ℤ◌, ◌-ℤ◌, ◌≤ℤ◌, min_ℤ_cases, max_ℤ_cases, int_laws, List, [], ◌∷◌, ◌≡◌, refl, ◌∙◌,
  inl, inr, arith, ◌==◌, Bool-cases, if◌then◌else◌,
}
use smart_light.Table.{All}
use smart_light.Database.Stock.{Inventory}
use smart_light.Checkout.Tables.{ReservationItem}
use smart_light.Checkout.Service.Reserve.{reserve_row}
use smart_light.Checkout.Service.Release.{release_test, release_row}

-- How much of a variant the items ask for.
abbrev pub need : ℕ → List ReservationItem → ℤ
need v [] = pos 0
need v (i ∷ t) = (if v == i.product_variant_id then i.quantity else pos 0) +ℤ need v t

abbrev pub IsPositive : ReservationItem → Type 0
IsPositive i = pos 0 ≤ℤ i.quantity

-- Every unit on hand is either available or reserved.
pub record IsBalanced (r : Inventory) : Type 0 where
  pub sum : r.available +ℤ r.reserved ≡ r.on_hand
  pub available_positive : pos 0 ≤ℤ r.available

abbrev pub take : ReservationItem → Inventory → Inventory
take i r = if release_test i r then reserve_row i r else r

abbrev pub give : ReservationItem → Inventory → Inventory
give i r = if release_test i r then release_row i r else r

-- A row after all items are taken from it, and after all are given back.
abbrev pub taken : List ReservationItem → Inventory → Inventory
taken [] r = r
taken (i ∷ t) r = taken t (take i r)

abbrev pub given : List ReservationItem → Inventory → Inventory
given [] r = r
given (i ∷ t) r = given t (give i r)

pub need-positive :
    (v : ℕ) (items : List ReservationItem) → All IsPositive items → pos 0 ≤ℤ need v items
need-positive v [] a = omega arith
need-positive v (i ∷ t) a = elim (Bool-cases (v == i.product_variant_id)) [
  | inl e ↦ rw e (grind (int_laws, a.0, need-positive v t a.1))
  | inr e ↦ rw e (grind (int_laws, need-positive v t a.1))
]

-- What a row has after a loop: `x` more available and as much less reserved.
pub record Moved (x : ℤ) (r s : Inventory) : Type 0 where
  pub id : s.id ≡ r.id
  pub variant : s.product_variant_id ≡ r.product_variant_id
  pub warehouse : s.warehouse_code ≡ r.warehouse_code
  pub on_hand : s.on_hand ≡ r.on_hand
  pub available : s.available ≡ r.available +ℤ x
  pub reserved : s.reserved ≡ r.reserved -ℤ x
  pub threshold : s.low_stock_threshold ≡ r.low_stock_threshold
  pub backorder : s.allow_backorder ≡ r.allow_backorder

pub Moved-zero : (r : Inventory) → Moved (pos 0) r r
Moved-zero r = record {
  id = refl;
  variant = refl;
  warehouse = refl;
  on_hand = refl;
  available = omega int_laws;
  reserved = omega int_laws;
  threshold = refl;
  backorder = refl;
}

pub Moved-trans :
    (x y z : ℤ) (r s t : Inventory) → x +ℤ y ≡ z → Moved x r s → Moved y s t → Moved z r t
Moved-trans x y z r s t sum a b = record {
  id = cc (a.id, b.id);
  variant = cc (a.variant, b.variant);
  warehouse = cc (a.warehouse, b.warehouse);
  on_hand = cc (a.on_hand, b.on_hand);
  available = grind (int_laws, a.available, b.available, sum);
  reserved = grind (int_laws, a.reserved, b.reserved, sum);
  threshold = cc (a.threshold, b.threshold);
  backorder = cc (a.backorder, b.backorder);
}

take-Moved :
    (i : ReservationItem) (r : Inventory)
    → Moved
        (pos 0 -ℤ (if r.product_variant_id == i.product_variant_id then i.quantity else pos 0))
        r
        (take i r)
take-Moved i r = elim (Bool-cases (r.product_variant_id == i.product_variant_id)) [
  | inl e ↦ rw e (record {
    id = refl;
    variant = refl;
    warehouse = refl;
    on_hand = refl;
    available = omega int_laws;
    reserved = omega int_laws;
    threshold = refl;
    backorder = refl;
  })
  | inr e ↦
      rw e (Moved-trans (pos 0) (pos 0) _ r r r (omega int_laws) (Moved-zero r) (Moved-zero r))
]

pub taken-Moved :
    (items : List ReservationItem) (r : Inventory)
    → Moved (pos 0 -ℤ need r.product_variant_id items) r (taken items r)
taken-Moved [] r =
    Moved-trans (pos 0) (pos 0) _ r r r (omega int_laws) (Moved-zero r) (Moved-zero r)
taken-Moved (i ∷ t) r =
    let first = take-Moved i r in
    Moved-trans _ _ _ r (take i r) (taken t (take i r)) (grind (int_laws, first.variant)) first
      (taken-Moved t (take i r))

pub Moved-IsBalanced :
    (x : ℤ) (r s : Inventory) → Moved x r s → IsBalanced r → pos 0 ≤ℤ s.available → IsBalanced s
Moved-IsBalanced x r s m b enough = record {
  sum = grind (int_laws, m.available, m.reserved, m.on_hand, b.sum);
  available_positive = enough;
}

pub given-variant :
    (items : List ReservationItem) (r : Inventory)
    → (given items r).product_variant_id ≡ r.product_variant_id
given-variant [] r = refl
given-variant (i ∷ t) r = given-variant t (give i r) ∙ ground arith

give-Moved :
    (i : ReservationItem) (r : Inventory)
    → IsBalanced r
    → IsPositive i
    → (if r.product_variant_id == i.product_variant_id then i.quantity else pos 0) ≤ℤ r.reserved
    → Moved
        (if r.product_variant_id == i.product_variant_id then i.quantity else pos 0)
        r
        (give i r)
give-Moved i r b positive covered =
    elim (Bool-cases (r.product_variant_id == i.product_variant_id)) [
      | inl e ↦ rw e (record {
        id = refl;
        variant = refl;
        warehouse = refl;
        on_hand = refl;
        available =
            grind
              (int_laws, min_ℤ_cases (r.available +ℤ i.quantity) r.on_hand, b.sum, rw e at covered);
        reserved =
            grind (int_laws, max_ℤ_cases (r.reserved -ℤ i.quantity) (pos 0), rw e at covered);
        threshold = refl;
        backorder = refl;
      })
      | inr e ↦ rw e (Moved-zero r)
    ]

pub given-Moved :
    (items : List ReservationItem) (r : Inventory)
    → IsBalanced r
    → All IsPositive items
    → need r.product_variant_id items ≤ℤ r.reserved
    → Moved (need r.product_variant_id items) r (given items r)
given-Moved [] r b positive covered = Moved-zero r
given-Moved (i ∷ t) r b positive covered =
    Moved-trans _ _ _ r (give i r) (given t (give i r)) (grind (int_laws, first.variant)) first (
      given-Moved t (give i r) (Moved-IsBalanced _ r (give i r) first b still_available) positive.1
        (grind (int_laws, first.variant, first.reserved, covered)))
  where
    rest : pos 0 ≤ℤ need r.product_variant_id t
    rest = need-positive r.product_variant_id t positive.1

    amount-positive :
        pos 0 ≤ℤ (if r.product_variant_id == i.product_variant_id then i.quantity else pos 0)
    amount-positive = elim (Bool-cases (r.product_variant_id == i.product_variant_id)) [
      | inl e ↦ rw e positive.0
      | inr e ↦ rw e (omega arith)
    ]

    first :
        Moved
          (if r.product_variant_id == i.product_variant_id then i.quantity else pos 0)
          r
          (give i r)
    first = give-Moved i r b positive.0 (grind (int_laws, rest, covered))

    still_available : pos 0 ≤ℤ (give i r).available
    still_available = grind (int_laws, first.available, amount-positive, b.available_positive)

row_eq : (x y : Inventory) → Moved (pos 0) x y → y ≡ x
row_eq x y m =
    cc
      (m.id, m.variant, m.warehouse, m.on_hand, m.threshold, m.backorder, available_eq, reserved_eq)
  where
    available_eq : y.available ≡ x.available
    available_eq = grind (int_laws, m.available)

    reserved_eq : y.reserved ≡ x.reserved
    reserved_eq = grind (int_laws, m.reserved)

-- Taking items and giving them back leaves a row as it was.
pub given-taken :
    (items : List ReservationItem) (r : Inventory)
    → IsBalanced (taken items r)
    → All IsPositive items
    → need (taken items r).product_variant_id items ≤ℤ (taken items r).reserved
    → given items (taken items r) ≡ r
given-taken items r b positive covered = row_eq r _ (
    Moved-trans _ _ (pos 0) r (taken items r) (given items (taken items r))
      (grind (int_laws, there.variant)) there
      (given-Moved items (taken items r) b positive covered))
  where
    there : Moved (pos 0 -ℤ need r.product_variant_id items) r (taken items r)
    there = taken-Moved items r
