-- ===== src/Shipping/Trail/Moves.antt =====
-- The two writes that change a shipment's status keep the trails of all shipments: one that moves a
-- shipment with an entry of its history, and one that creates it with its first entry
-- (modules/shipping/service.ts, lines 242-286, 322-350 and 664-695).
pub mod Calls
use smart_light.Prelude.{
  ℕ, suc, ◌<◌, Bool, true, false, List, [], ◌∷◌, some, none, ◌≡◌, ◌≢◌, refl, sym, ap, ◌∙◌, arith,
  ◌==◌, ==_iff,
}
use smart_light.Table.{find_first, update, All, IsUnique}
use smart_light.Table.Rows.{All-find_first, find_first-holds, All-map, All-zip, All-update}
use smart_light.Table.Keys.{find_first_unique, IsUnique-update}
use smart_light.Shipping.Status.{ShipmentStatus}
use smart_light.Shipping.Tables.{Shipment, ShipmentHistory, ShippingTables}
use smart_light.Shipping.Service.{find_by_id}
use smart_light.Shipping.Trail.{
  step, HasTrail, IsTracked, history_of, history_of-hit, history_of-miss, history_of-none,
}

-- An assignment to a shipment, and the entry that records it.
pub record Move (db : ShippingTables) : Type 0 where
  pub assign : Shipment → Shipment
  pub entry : ShipmentHistory
  pub shipment : Shipment
  pub found : find_by_id entry.shipment_id db ≡ some shipment
  pub same_id : (s : Shipment) → (assign s).id ≡ s.id
  pub new_status : (s : Shipment) → (assign s).status ≡ entry.new_status
  pub from_old : entry.old_status ≡ some shipment.status
  pub permitted : step (some shipment.status) entry.new_status ≡ true

abbrev pub moved_tables : (db : ShippingTables) → Move db → ShippingTables
moved_tables db m = record db {
  shipment = update (λ s. s.id == m.entry.shipment_id) m.assign db.shipment;
  shipment_history = m.entry ∷ db.shipment_history;
}

module _ (db : ShippingTables) (m : Move db) (v : IsTracked db) where
  open m use {assign, entry, shipment}

  found_id : shipment.id ≡ entry.shipment_id
  unfolding find_by_id
  found_id = (==_iff _ _).0 (find_first-holds _ db.shipment m.found)

  moved-HasTrail :
      (s : Shipment)
      → (s.id == entry.shipment_id) ≡ true
      → HasTrail db.shipment_history s × (s.id ≡ shipment.id → s ≡ shipment)
      → HasTrail (entry ∷ db.shipment_history) (assign s)
  moved-HasTrail s hit (trail, only) =
      rw
        (
          m.new_status s,
          m.same_id s,
          history_of-hit s.id entry db.shipment_history (sym same),
          m.from_old,
        )
        (refl, (m.permitted, rw (ap (λ x. x.status) (only (same ∙ sym found_id))) at trail))
    where
      same : s.id ≡ entry.shipment_id
      same = (==_iff _ _).0 hit

  other-HasTrail :
      (s : Shipment)
      → (s.id == entry.shipment_id) ≡ false
      → HasTrail db.shipment_history s × (s.id ≡ shipment.id → s ≡ shipment)
      → HasTrail (entry ∷ db.shipment_history) s
  other-HasTrail s miss (trail, only) =
      rw (history_of-miss s.id entry db.shipment_history (ground (arith, miss))) trail

  known : entry.shipment_id < db.next_id
  unfolding find_by_id
  known = rw found_id at (All-find_first _ _ db.shipment v.shipments_numbered m.found)

  pub moved_tables-IsTracked : IsTracked (moved_tables db m)
  unfolding find_by_id
  moved_tables-IsTracked = record {
    ids = IsUnique-update (λ s. s.id) _ assign db.shipment m.same_id v.ids;
    shipments_numbered =
        All-update _ assign db.shipment (λ s _ h. rw (m.same_id s) h) (λ s _ h. h)
          v.shipments_numbered;
    entries_numbered = (known, v.entries_numbered);
    trails = All-update _ assign db.shipment moved-HasTrail other-HasTrail (
        All-zip _ _ db.shipment v.trails
          (find_first_unique (λ s. s.id) _ db.shipment v.ids m.found));
  }

-- The tables with a new shipment and its first entry.
abbrev pub started_tables : Shipment → ShipmentHistory → ShippingTables → ShippingTables
started_tables s h db = record db {
  next_id = suc db.next_id;
  shipment = s ∷ db.shipment;
  shipment_history = h ∷ db.shipment_history;
}

pub started_tables-IsTracked :
    (s : Shipment) (h : ShipmentHistory) (db : ShippingTables)
    → s.id ≡ db.next_id
    → h.shipment_id ≡ db.next_id
    → h.new_status ≡ s.status
    → h.old_status ≡ none
    → step none s.status ≡ true
    → IsTracked db
    → IsTracked (started_tables s h db)
started_tables-IsTracked s h db id of to from first v = record {
  ids = (All-map db.shipment (λ x n. omega (arith, n, id)) v.shipments_numbered, v.ids);
  shipments_numbered =
      (omega (arith, id), All-map db.shipment (λ x n. omega (arith, n)) v.shipments_numbered);
  entries_numbered =
      (omega (arith, of), All-map db.shipment_history (λ x n. omega (arith, n)) v.entries_numbered);
  trails = (
    rw
        (
          history_of-hit s.id h db.shipment_history (of ∙ sym id),
          history_of-none s.id db.shipment_history
              (All-map db.shipment_history (λ x n. omega (arith, n, id)) v.entries_numbered),
          to,
          from,
        )
        (refl, (first, refl)),
    All-map db.shipment
        (λ x n. rw (history_of-miss x.id h db.shipment_history (omega (arith, n.1, of))) n.0)
        (All-zip _ _ db.shipment v.trails v.shipments_numbered),
  );
}
