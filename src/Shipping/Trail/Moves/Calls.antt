-- ===== src/Shipping/Trail/Moves/Calls.antt =====
-- The calls that change a shipment's status, branch by branch, and the trails that they keep
-- (modules/shipping/service.ts, lines 365-409, 522-614 and 620-701).
use smart_light.Prelude.{
  ℕ, String, true, false, ◌∷◌, Option, some, ◌≡◌, ◌⊎◌, refl, arith, ◌==◌, inl, inr, Bool-cases,
  Option-cases, Outcome, ok, err, final,
}
use smart_light.Table.{update}
use smart_light.Shipping.Status.{
  ShipmentStatus, is_status, includes, shipment_transitions, ShippingError, shipment_not_found,
  not_cancellable, already_delivered, invalid_transition,
}
use smart_light.Shipping.Tables.{Shipment, ShippingTables}
use smart_light.Shipping.Service.{find_by_id, require_shipment}
use smart_light.Shipping.Service.Transition.{
  Actor, TransitionArgs, too_late, is_done, patched, transition_entry, transition_status,
  cancel_shipment, update_status,
}
use smart_light.Shipping.Trail.{IsTracked}
use smart_light.Shipping.Trail.Moves.{moved_tables-IsTracked}

-- The tables after a transition.
abbrev pub transitioned : ℕ → TransitionArgs → ShipmentStatus → ShippingTables → ShippingTables
transitioned now a from db = record db {
  shipment = update (λ s. s.id == a.shipment_id) (patched now a) db.shipment;
  shipment_history = transition_entry a from ∷ db.shipment_history;
}

-- A transition that the table permits.
pub record Made (now : ℕ) (a : TransitionArgs) (db : ShippingTables) : Type 0 where
  pub shipment : Shipment
  pub found : find_by_id a.shipment_id db ≡ some shipment
  pub permitted : includes (shipment_transitions shipment.status) a.to_status ≡ true
  pub result : transition_status now a db ≡ ok tt (transitioned now a shipment.status db)

module _ (now : ℕ) (a : TransitionArgs) (db : ShippingTables) where
  pub transition_status-made :
      {s : Shipment}
      → find_by_id a.shipment_id db ≡ some s
      → too_late s.status a.to_status ≡ false
      → is_done s.status a.to_status ≡ false
      → is_status s.status a.to_status ≡ false
      → includes (shipment_transitions s.status) a.to_status ≡ true
      → transition_status now a db ≡ ok tt (transitioned now a s.status db)
  unfolding transition_status
  transition_status-made found early undone moves permitted =
      ground (arith, found, early, undone, moves, permitted)

  found-cases :
      {s : Shipment}
      → find_by_id a.shipment_id db ≡ some s
      → ((e : ShippingError) × (transition_status now a db ≡ err e db))
        ⊎ ((transition_status now a db ≡ ok tt db) ⊎ Made now a db)
  unfolding transition_status
  found-cases {s} found = elim (Bool-cases (too_late s.status a.to_status)) [
    | inl late ↦ inl (not_cancellable a.shipment_id s.status, ground (arith, found, late))
    | inr early ↦ elim (Bool-cases (is_done s.status a.to_status)) [
      | inl done ↦ inl (already_delivered a.shipment_id, ground (arith, found, early, done))
      | inr undone ↦ elim (Bool-cases (is_status s.status a.to_status)) [
        | inl same ↦ inr (inl (ground (arith, found, early, undone, same)))
        | inr moves ↦ elim (Bool-cases (includes (shipment_transitions s.status) a.to_status)) [
          | inr forbidden ↦ inl (
            invalid_transition a.shipment_id s.status a.to_status,
            ground (arith, found, early, undone, moves, forbidden),
          )
          | inl permitted ↦ inr (
              inr (record {
                shipment = s;
                found = found;
                permitted = permitted;
                result = transition_status-made found early undone moves permitted;
              }))
        ]
      ]
    ]
  ]

  -- A transition throws and changes nothing, or repeats the status and changes nothing, or is permitted
  -- by the table, sets the status and is recorded.
  pub transition_status-cases :
      ((e : ShippingError) × (transition_status now a db ≡ err e db))
      ⊎ ((transition_status now a db ≡ ok tt db) ⊎ Made now a db)
  unfolding transition_status
  transition_status-cases = elim (Option-cases (find_by_id a.shipment_id db)) [
    | inl missing ↦ inl (shipment_not_found a.shipment_id, ground (arith, missing))
    | inr (s, found) ↦ found-cases found
  ]

  Made-IsTracked :
      (m : Made now a db) → IsTracked db → IsTracked (transitioned now a m.shipment.status db)
  Made-IsTracked m v =
      moved_tables-IsTracked db
        (record {
          assign = patched now a;
          entry = transition_entry a m.shipment.status;
          shipment = m.shipment;
          found = m.found;
          same_id = λ s. ground arith;
          new_status = λ s. ground arith;
          from_old = refl;
          permitted = ground (arith, m.permitted);
        })
        v

  pub transition_status-IsTracked : IsTracked db → IsTracked (final (transition_status now a db))
  transition_status-IsTracked v = elim transition_status-cases [
    | inl (e, thrown) ↦ rw thrown v
    | inr done ↦ elim done [ inl same ↦ rw same v | inr m ↦ rw m.result (Made-IsTracked m v) ]
  ]

-- A read that follows a transition writes nothing.
then_read :
    (id : ℕ) (o : Outcome ShippingTables ShippingError (Unit {0}))
    → final (elim o [ ok _ s ↦ require_shipment id s | err e s ↦ err e s ]) ≡ final o
unfolding require_shipment
then_read id (ok _ s) = ground arith
then_read id (err e s) = refl

pub cancel_shipment-final :
    (now id : ℕ) (actor : Actor) (reason : Option String) (db : ShippingTables)
    → (a : TransitionArgs) × (final (cancel_shipment now id actor reason db)
        ≡ final (transition_status now a db))
unfolding cancel_shipment
cancel_shipment-final now id actor reason db = (_, then_read id (transition_status now _ db))

pub update_status-final :
    (now id : ℕ) (to : ShipmentStatus) (actor : Actor) (reason : Option String)
    (db : ShippingTables)
    → (a : TransitionArgs) × (final (update_status now id to actor reason db)
        ≡ final (transition_status now a db))
unfolding update_status
update_status-final now id to actor reason db = (_, then_read id (transition_status now _ db))
