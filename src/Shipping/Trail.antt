-- ===== src/Shipping/Trail.antt =====
-- The history of a shipment as a path through its states (modules/shipping/service.ts).
pub mod Moves
use smart_light.Prelude.{
  ℕ, suc, ◌+◌, ◌<◌, ◌≤◌, Bool, true, false, ◌||◌, List, [], ◌∷◌, Option, none, some, ◌≡◌, ◌≢◌, refl,
  sym, ap, ◌∙◌, arith, ◌==◌, ==_iff, inl, inr, Bool-cases, if◌then◌else◌,
}
use smart_light.Table.{find_first, find_many, update, All, IsUnique}
use smart_light.Table.Rows.{All-find_first, All-map, All-zip, All-update}
use smart_light.Table.Keys.{find_first_unique, IsUnique-update}
use smart_light.Shipping.Status.{
  ShipmentStatus, created, waiting_pickup, picked_up, in_transit, out_for_delivery, delivered,
  failed, returning, returned, cancelled, is_status, includes, shipment_transitions,
}
use smart_light.Shipping.Tables.{Shipment, ShipmentHistory, ShippingTables}

-- A shipment starts in CREATED; it fails if the carrier refuses it, or makes the transitions of the
-- table.
abbrev pub step : Option ShipmentStatus → ShipmentStatus → Bool
step none to = is_status to created
step (some from) to =
    includes (shipment_transitions from) to
    || includes (if is_status from created then failed ∷ [] else []) to

-- The entries lead, newest first, from the creation to the status.
abbrev pub IsTrail : Option ShipmentStatus → List ShipmentHistory → Type 0
IsTrail status [] = status ≡ none
IsTrail status (h ∷ t) =
    (status ≡ some h.new_status)
    × ((step h.old_status h.new_status ≡ true) × IsTrail h.old_status t)

unfoldable pub history_of : ℕ → List ShipmentHistory → List ShipmentHistory
history_of id t = find_many (λ h. h.shipment_id == id) t

abbrev pub HasTrail : List ShipmentHistory → Shipment → Type 0
HasTrail t s = IsTrail (some s.status) (history_of s.id t)

-- Every shipment has its trail; ids are unique and numbered.
pub record IsTracked (db : ShippingTables) : Type 0 where
  pub ids : IsUnique (λ s. s.id) db.shipment
  pub shipments_numbered : All (λ s. s.id < db.next_id) db.shipment
  pub entries_numbered : All (λ h. h.shipment_id < db.next_id) db.shipment_history
  pub trails : All (HasTrail db.shipment_history) db.shipment

pub history_of-hit :
    (id : ℕ) (h : ShipmentHistory) (t : List ShipmentHistory)
    → h.shipment_id ≡ id
    → history_of id (h ∷ t) ≡ h ∷ history_of id t
unfolding history_of find_many
history_of-hit id h t e = ground arith

pub history_of-miss :
    (id : ℕ) (h : ShipmentHistory) (t : List ShipmentHistory)
    → h.shipment_id ≢ id
    → history_of id (h ∷ t) ≡ history_of id t
unfolding history_of find_many
history_of-miss id h t e = ground arith

pub history_of-none :
    (id : ℕ) (t : List ShipmentHistory) → All (λ h. h.shipment_id ≢ id) t → history_of id t ≡ []
unfolding history_of find_many
history_of-none id [] a = refl
history_of-none id (h ∷ t) a = ground (arith, a.0, history_of-none id t a.1)

-- How far along a status is: every step leads further.
abbrev pub rank : ShipmentStatus → ℕ
rank created = 1
rank waiting_pickup = 2
rank picked_up = 3
rank in_transit = 4
rank out_for_delivery = 5
rank failed = 6
rank returning = 7
rank delivered = 8
rank returned = 8
rank cancelled = 8

abbrev pub count : List ShipmentHistory → ℕ
count [] = 0
count (h ∷ t) = suc (count t)

abbrev pub rank_before : Option ShipmentStatus → ℕ
rank_before none = 0
rank_before (some s) = rank s

step-rank :
    (from : Option ShipmentStatus) (to : ShipmentStatus)
    → step from to ≡ true
    → rank_before from < rank to
unfolding includes shipment_transitions
step-rank none to h = ground (arith, h)
step-rank (some created) to h = ground (arith, h)
step-rank (some waiting_pickup) to h = ground (arith, h)
step-rank (some picked_up) to h = ground (arith, h)
step-rank (some in_transit) to h = ground (arith, h)
step-rank (some out_for_delivery) to h = ground (arith, h)
step-rank (some delivered) to h = ground (arith, h)
step-rank (some failed) to h = ground (arith, h)
step-rank (some returning) to h = ground (arith, h)
step-rank (some returned) to h = ground (arith, h)
step-rank (some cancelled) to h = ground (arith, h)

pub IsTrail-count :
    (status : Option ShipmentStatus) (t : List ShipmentHistory)
    → IsTrail status t
    → count t ≤ rank_before status
IsTrail-count status [] trail = omega arith
IsTrail-count status (h ∷ t) (now, (made, rest)) =
    rw now
      (omega (arith, step-rank h.old_status h.new_status made, IsTrail-count h.old_status t rest))
