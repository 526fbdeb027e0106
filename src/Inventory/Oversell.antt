-- ===== src/Inventory/Oversell.antt =====
-- Many customers reserve the same variant: what is granted in all.
use smart_light.Prelude.{
  ℕ, ℤ, pos, ◌+ℤ◌, ◌≤ℤ◌, leb_ℤ, int_laws, +ℤ_zero, taken_twice, part_le_whole, List, [], ◌∷◌, some,
  ◌≡◌, arith, inl, inr, Bool-cases, final, if◌then◌else◌,
}
use mathlib.Core.Path.{subst}
use smart_light.Table.{All}
use smart_light.Database.{Database}
use smart_light.Database.Stock.{Inventory}
use smart_light.Inventory.Change.{Statement, assign}
use smart_light.Inventory.Change.Soundness.{IsValid, Change-IsValid}
use smart_light.Inventory.Service as Service
use smart_light.Inventory.Service.{find_by_variant}
use smart_light.Inventory.Calls.Changes.{reserve_stock-Change}
use smart_light.Inventory.Calls.Contract.{reserve_stock_made, reserve_stock_refused}
use smart_light.Inventory.Calls.Rows.{reserve_stock-row}
use smart_light.Inventory.Queries.Laws.{succeeds}

-- The calls one after the other, in whatever order the database runs their transactions.
unfoldable pub after_reservations : List Service.ReserveArgs → Database → Database
after_reservations [] db = db
after_reservations (a ∷ calls) db = after_reservations calls (final (Service.reserve_stock a db))

-- The pieces that the successful calls were granted.
unfoldable pub granted : List Service.ReserveArgs → Database → ℤ
granted [] db = pos 0
granted (a ∷ calls) db =
    (if succeeds (Service.reserve_stock a db) then a.quantity else pos 0)
    +ℤ granted calls (final (Service.reserve_stock a db))

-- One or more pieces of the variant are asked for.
abbrev pub AsksFor : ℕ → Service.ReserveArgs → Type 0
AsksFor variant a = (a.variant_id ≡ variant) × (pos 1 ≤ℤ a.quantity)

-- One call: what it is granted leaves `available`, and nothing is granted that is not there.
record Step (variant : ℕ) (a : Service.ReserveArgs) (db : Database) (r : Inventory) : Type 0 where
  row : Inventory
  found : find_by_variant variant (final (Service.reserve_stock a db)) ≡ some row
  taken :
      (if succeeds (Service.reserve_stock a db) then a.quantity else pos 0) +ℤ row.available
      ≡ r.available
  nonneg : pos 0 ≤ℤ r.available → pos 0 ≤ℤ row.available

step :
    (a : Service.ReserveArgs) (db : Database) {r : Inventory}
    → IsValid db
    → find_by_variant a.variant_id db ≡ some r
    → pos 1 ≤ℤ a.quantity
    → Step a.variant_id a db r
step a db {r} v found p = elim (Bool-cases (leb_ℤ a.quantity r.available)) [
  | inl enough ↦ record {
    row = assign Statement.reserving a.quantity r;
    found = reserve_stock-row a db v found p (ground arith);
    taken = rw (reserve_stock_made a db v found (ground arith) enough) (omega int_laws);
    nonneg = λ h. grind int_laws;
  }
  | inr short ↦ record {
    row = r;
    found = rw (reserve_stock_refused a db v found (ground arith) short) found;
    taken = rw (reserve_stock_refused a db v found (ground arith) short) (+ℤ_zero r.available);
    nonneg = λ h. h;
  }
]

step_for :
    (variant : ℕ) (a : Service.ReserveArgs) (db : Database) {r : Inventory}
    → IsValid db
    → find_by_variant variant db ≡ some r
    → AsksFor variant a
    → Step variant a db r
step_for variant a db {r} v found (same_variant, p) =
    subst (λ x. Step x a db r) same_variant (step a db v (rw same_variant found) p)

-- However many reservations of a variant are run one after the other, each for one piece or more, in
-- tables that are valid: the pieces granted in all are the pieces that have left `available`, and if `available` was not
-- negative, it is not negative afterwards, so no more is granted than there was.
pub granted-available :
    (variant : ℕ) (calls : List Service.ReserveArgs) (db : Database) {r : Inventory}
    → IsValid db
    → find_by_variant variant db ≡ some r
    → All (AsksFor variant) calls
    → (row : Inventory) × (find_by_variant variant (after_reservations calls db) ≡ some row)
      × (granted calls db +ℤ row.available ≡ r.available)
      × (pos 0 ≤ℤ r.available → (pos 0 ≤ℤ row.available) × (granted calls db ≤ℤ r.available))
unfolding after_reservations granted
granted-available variant [] db {r} v found asks = (r, found, +ℤ_zero r.available, λ h. (h, h))
granted-available variant (a ∷ calls) db {r} v found (ask, asks) =
    let s = step_for variant a db v found ask in
    let (row, last, total, nonneg) =
      granted-available variant calls (final (Service.reserve_stock a db))
        (Change-IsValid (reserve_stock-Change a db v) v) s.found asks in
    let all = taken_twice _ s.row.available r.available _ row.available s.taken total in
    (
      row,
      last,
      all,
      λ h.
          let left = (nonneg (s.nonneg h)).0 in
          (left, part_le_whole _ row.available r.available all left),
    )
