-- ===== src/Shipping/History.antt =====
-- Sequences of shipping calls (modules/shipping/service.ts).
use smart_light.Prelude.{
  ℕ, ◌≤◌, String, List, [], ◌∷◌, Option, some, ◌≡◌, ◌⊎◌, arith, ==_iff, final,
}
use smart_light.Table.Rows.{All-find_first, find_first-holds}
use smart_light.Shipping.Status.{ShipmentStatus, ShippingProvider}
use smart_light.Shipping.Tables.{Shipment, ShippingTables}
use smart_light.Shipping.Service.{find_by_id}
use smart_light.Shipping.Service.Transition.{Actor, cancel_shipment, update_status}
use smart_light.Shipping.Service.Webhook.{CallbackResult, handle_webhook, refuse_webhook}
use smart_light.Shipping.Service.Create.{CreateShipmentDto, Registration, create_shipment}
use smart_light.Shipping.Trail.{IsTracked, history_of, count, IsTrail-count, rank}
use smart_light.Shipping.Trail.Moves.Calls.{
  transition_status-IsTracked, cancel_shipment-final, update_status-final,
}
use smart_light.Shipping.Webhooks.{handle_webhook-IsTracked, refuse_webhook-IsTracked}
use smart_light.Shipping.Creation.Recorded.{create_shipment-IsTracked}

-- The calls of ShippingService that write, with what the carrier's gateway answers.
pub data Call : Type 0 where
  creates : (user : ℕ) (number refusal : String) → CreateShipmentDto → String ⊎ Registration → Call
  cancels : (shipment : ℕ) → Actor → Option String → Call
  updates : (shipment : ℕ) → ShipmentStatus → Actor → Option String → Call
  receives : ShippingProvider → CallbackResult → Call
  refuses : ShippingProvider → Option String → Option String → String → Call

-- The tables that a call leaves, at its time.
unfoldable pub call : ℕ → Call → ShippingTables → ShippingTables
call now (creates user number refusal dto answer) db =
    final (create_shipment user number refusal dto answer db)
call now (cancels id actor reason) db = final (cancel_shipment now id actor reason db)
call now (updates id to actor reason) db = final (update_status now id to actor reason db)
call now (receives provider c) db = final (handle_webhook now provider c db)
call now (refuses provider event type message) db =
    final (refuse_webhook now provider event type message db)

unfoldable pub run : List (ℕ × Call) → ShippingTables → ShippingTables
run [] db = db
run (c ∷ t) db = run t (call c.0 c.1 db)

call-IsTracked :
    (now : ℕ) (c : Call) (db : ShippingTables) → IsTracked db → IsTracked (call now c db)
unfolding call
call-IsTracked now (creates user number refusal dto answer) db v =
    create_shipment-IsTracked user number refusal dto answer db v
call-IsTracked now (cancels id actor reason) db v =
    let same = cancel_shipment-final now id actor reason db in
    rw same.1 (transition_status-IsTracked now same.0 db v)
call-IsTracked now (updates id to actor reason) db v =
    let same = update_status-final now id to actor reason db in
    rw same.1 (transition_status-IsTracked now same.0 db v)
call-IsTracked now (receives provider c) db v = handle_webhook-IsTracked now provider c db v
call-IsTracked now (refuses provider event type message) db v =
    refuse_webhook-IsTracked now provider db v event type message

-- After any sequence of shipping calls, at any times, returning or throwing, whatever the carriers
-- answer, in tables where it held before: the history of every shipment is a path from its creation to
-- its status, each entry a transition of the table, or the refusal of a new shipment by its carrier.
pub run-IsTracked :
    (calls : List (ℕ × Call)) (db : ShippingTables) → IsTracked db → IsTracked (run calls db)
unfolding run
run-IsTracked [] db v = v
run-IsTracked (c ∷ t) db v = run-IsTracked t (call c.0 c.1 db) (call-IsTracked c.0 c.1 db v)

rank-bounded : (s : ShipmentStatus) → rank s ≤ 8
rank-bounded s = ground arith

-- However many calls and webhooks come, in tables where every shipment has its trail at the start, a
-- shipment changes its status at most seven times after its creation: its history has no more than
-- eight entries.
pub run-count :
    (calls : List (ℕ × Call)) (id : ℕ) (db : ShippingTables) {s : Shipment}
    → IsTracked db
    → find_by_id id (run calls db) ≡ some s
    → count (history_of id (run calls db).shipment_history) ≤ 8
unfolding find_by_id
run-count calls id db {s} v found =
    let after = run-IsTracked calls db v in
    let same = (==_iff s.id id).0 (find_first-holds _ (run calls db).shipment found) in
    let trail = All-find_first _ _ (run calls db).shipment after.trails found in
    omega (arith, rank-bounded s.status, IsTrail-count (some s.status) _ (rw same at trail))
