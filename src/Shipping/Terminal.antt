-- ===== src/Shipping/Terminal.antt =====
-- Every shipment can be brought to an end (modules/shipping/service.ts, lines 391-409).
use smart_light.Prelude.{ℕ, true, false, List, [], ◌∷◌, none, some, ◌≡◌, refl, ◌∙◌, arith, ◌==◌}
use smart_light.Table.Rows.{find_first-holds}
use smart_light.Table.Keys.{find_first-update}
use smart_light.Shipping.Status.{
  ShipmentStatus, created, waiting_pickup, picked_up, in_transit, out_for_delivery, delivered,
  failed, returning, returned, cancelled, is_status, includes, shipment_transitions, status_changed,
}
use smart_light.Shipping.Tables.{Shipment, ShippingTables}
use smart_light.Shipping.Service.{find_by_id, is_open, require_shipment}
use smart_light.Shipping.Service.Transition.{
  Actor, TransitionArgs, too_late, is_done, patched, update_status,
}
use smart_light.Shipping.Trail.Moves.Calls.{transition_status-made, transitioned}
use smart_light.Shipping.History.{Call, updates, call, run}

-- A status update that `transitionStatus` makes.
abbrev Makes : ShipmentStatus → ShipmentStatus → Type 0
Makes from to =
    (too_late from to ≡ false)
    × (is_done from to ≡ false)
    × (is_status from to ≡ false)
    × (includes (shipment_transitions from) to ≡ true)

-- The shipment is in a status.
abbrev InStatus : ℕ → ShipmentStatus → ShippingTables → Type 0
InStatus id status db = (s : Shipment) × (find_by_id id db ≡ some s) × (s.status ≡ status)

module _ (now : ℕ) (actor : Actor) (id : ℕ) where
  abbrev args : ShipmentStatus → TransitionArgs
  args to = record {
    shipment_id = id;
    to_status = to;
    actor = actor;
    reason = none;
    event = status_changed;
  }

  patched-status : (a : TransitionArgs) (s : Shipment) → (patched now a s).status ≡ a.to_status
  patched-status a s = ground arith

  patched-id : (a : TransitionArgs) (s : Shipment) → (patched now a s).id ≡ s.id
  patched-id a s = ground arith

  updated_tables :
      (from to : ShipmentStatus) (db : ShippingTables) {s : Shipment}
      → Makes from to
      → find_by_id id db ≡ some s
      → s.status ≡ from
      → call now (updates id to actor none) db ≡ transitioned now (args to) s.status db
  unfolding call update_status require_shipment
  updated_tables from to db makes found status = ground (
    arith,
    transition_status-made now (args to) db found (rw status makes.0) (rw status makes.1)
        (rw status makes.2) (rw status makes.3),
  )

  updating :
      (from to : ShipmentStatus) (db : ShippingTables)
      → Makes from to
      → InStatus id from db
      → InStatus id to (call now (updates id to actor none) db)
  unfolding find_by_id
  updating from to db makes (s, found, status) = rw (updated_tables from to db makes found status) (
    patched now (args to) s,
    find_first-update (λ x. x.id == id) (λ x. x.id == id) (patched now (args to)) db.shipment
          (λ x. rw (patched-id (args to) x) refl) found
        ∙ rw (find_first-holds _ db.shipment found) refl,
    patched-status (args to) s,
  )

  -- The updates that bring a shipment to an end.
  abbrev pub ending : ShipmentStatus → List ShipmentStatus
  ending created = cancelled ∷ []
  ending waiting_pickup = cancelled ∷ []
  ending picked_up = returning ∷ returned ∷ []
  ending in_transit = returning ∷ returned ∷ []
  ending out_for_delivery = delivered ∷ []
  ending failed = returning ∷ returned ∷ []
  ending returning = returned ∷ []
  ending _ = []

  abbrev pub calls : List ShipmentStatus → List (ℕ × Call)
  calls [] = []
  calls (to ∷ t) = (now, updates id to actor none) ∷ calls t

  ended :
      (from : ShipmentStatus) (db : ShippingTables)
      → InStatus id from db
      → (to : ShipmentStatus) × InStatus id to (run (calls (ending from)) db) × (is_open to ≡ false)
  unfolding run includes shipment_transitions
  ended created db here =
      (cancelled, updating created cancelled db (refl, refl, refl, refl) here, refl)
  ended waiting_pickup db here =
      (cancelled, updating waiting_pickup cancelled db (refl, refl, refl, refl) here, refl)
  ended picked_up db here = (
    returned,
    updating returning returned _ (refl, refl, refl, refl)
        (updating picked_up returning db (refl, refl, refl, refl) here),
    refl,
  )
  ended in_transit db here = (
    returned,
    updating returning returned _ (refl, refl, refl, refl)
        (updating in_transit returning db (refl, refl, refl, refl) here),
    refl,
  )
  ended out_for_delivery db here =
      (delivered, updating out_for_delivery delivered db (refl, refl, refl, refl) here, refl)
  ended failed db here = (
    returned,
    updating returning returned _ (refl, refl, refl, refl)
        (updating failed returning db (refl, refl, refl, refl) here),
    refl,
  )
  ended returning db here =
      (returned, updating returning returned db (refl, refl, refl, refl) here, refl)
  ended delivered db here = (delivered, here, refl)
  ended returned db here = (returned, here, refl)
  ended cancelled db here = (cancelled, here, refl)

-- Whatever state a shipment is in, at most two status updates, made one after the other, bring it to an
-- end: it is DELIVERED, RETURNED or CANCELLED then.
pub run-ending :
    (now id : ℕ) (actor : Actor) (db : ShippingTables) {s : Shipment}
    → find_by_id id db ≡ some s
    → (x : Shipment) × (find_by_id id (run (calls now actor id (ending now actor id s.status)) db)
        ≡ some x)
      × (is_open x.status ≡ false)
run-ending now id actor db {s} found =
    let e = ended now actor id s.status db (s, found, refl) in (e.1.0, e.1.1, rw e.1.2 e.2)
