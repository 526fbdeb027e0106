-- ===== src/Orders/Status.antt =====
-- modules/orders/service.ts, lines 69-103 and 565-583: the states of an order and the transitions
-- that customers and administrators may make.
use smart_light.Prelude.{
  Bool, true, false, ◌||◌, String, str_eq, List, [], ◌∷◌, Option, none, some, ◌==◌, ℕ,
  if◌then◌else◌,
}

pub data OrderStatus : Type 0 where
  pending_payment paid processing packed shipped delivering delivered cancelled refunded
        return_requested returned :
      OrderStatus

-- The place of a status in the enum.
abbrev pub rank : OrderStatus → ℕ
rank pending_payment = 0
rank paid = 1
rank processing = 2
rank packed = 3
rank shipped = 4
rank delivering = 5
rank delivered = 6
rank cancelled = 7
rank refunded = 8
rank return_requested = 9
rank returned = 10

-- `===` on statuses
abbrev pub is_status : OrderStatus → OrderStatus → Bool
is_status a b = rank a == rank b

-- `includes`
unfoldable pub includes : List OrderStatus → OrderStatus → Bool
includes [] s = false
includes (a ∷ rest) s = is_status a s || includes rest s

-- CUSTOMER_ALLOWED
unfoldable pub customer_allowed : OrderStatus → List OrderStatus
customer_allowed pending_payment = cancelled ∷ []
customer_allowed paid = []
customer_allowed processing = []
customer_allowed packed = []
customer_allowed shipped = []
customer_allowed delivering = []
customer_allowed delivered = return_requested ∷ []
customer_allowed cancelled = []
customer_allowed refunded = []
customer_allowed return_requested = returned ∷ []
customer_allowed returned = []

-- ADMIN_ALLOWED
unfoldable pub admin_allowed : OrderStatus → List OrderStatus
admin_allowed pending_payment = paid ∷ cancelled ∷ []
admin_allowed paid = processing ∷ []
admin_allowed processing = packed ∷ cancelled ∷ []
admin_allowed packed = shipped ∷ []
admin_allowed shipped = delivering ∷ []
admin_allowed delivering = delivered ∷ []
admin_allowed delivered = refunded ∷ []
admin_allowed cancelled = []
admin_allowed refunded = []
admin_allowed return_requested = []
admin_allowed returned = refunded ∷ []

-- Of an administrator, or of a customer.
abbrev pub allowed : Bool → OrderStatus → List OrderStatus
allowed true = admin_allowed
allowed false = customer_allowed

-- `parseStatus`; `none` is its throw.
unfoldable pub parse_status : String → Option OrderStatus
parse_status s =
    if str_eq s "PENDING_PAYMENT"
    then some pending_payment
    else if str_eq s "PAID"
    then some paid
    else if str_eq s "PROCESSING"
    then some processing
    else if str_eq s "PACKED"
    then some packed
    else if str_eq s "SHIPPED"
    then some shipped
    else if str_eq s "DELIVERING"
    then some delivering
    else if str_eq s "DELIVERED"
    then some delivered
    else if str_eq s "CANCELLED"
    then some cancelled
    else if str_eq s "REFUNDED"
    then some refunded
    else if str_eq s "RETURN_REQUESTED"
    then some return_requested
    else if str_eq s "RETURNED"
    then some returned
    else none
