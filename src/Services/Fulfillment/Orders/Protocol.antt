-- ===== src/Services/Fulfillment/Orders/Protocol.antt =====
-- What the handling of an order asks of the outside, in which order (`reserveInventory` and
-- `processRecord` of services/fulfillment-service/main.go): relations from the calls made before to
-- those made after, independent of the code's control flow.
use rca_lab.Base.{
  ◌≡◌, ℕ, zero, suc, Bool, true, false, ltb, String, List, [], ◌∷◌, Option, none, some, ◌==◌,
}
use rca_lab.Base.Int.{ℤ}
use rca_lab.Cluster.Exec.{Error, Result, ok, err, is_ok}
use rca_lab.Services.Fulfillment.Outside.{OrderItem, OrderEvent, Fetched, HttpResponse, Outside}
use rca_lab.Services.Fulfillment.Recorded.{Call, waited, put, ran, produced}
use rca_lab.Services.Fulfillment.Orders.{
  backoff, max_attempts, reserve_url, reserve_payload, is_settled, shipment_created,
  insert_shipment,
}

abbrev pub Log : Type 0
Log = List Call

abbrev pub settles : Result HttpResponse → Bool
settles (err _) = false
settles (ok resp) = is_settled resp

-- Attempts after the first wait; the context may end meanwhile.
pub data Pause (attempt : ℕ) : Bool → Log → Log → Type 0 where
  at_once : {l : Log} → ltb 1 attempt ≡ false → Pause attempt true l l
  after_wait :
      {l : Log} (r : Result (Unit {0}))
      → ltb 1 attempt ≡ true
      → Pause attempt (is_ok r) l (waited (backoff attempt) r ∷ l)

-- The requests for one reservation with so many attempts left: whether it was settled, and how.
pub data Tries (O : Outside) (url payload : String) : ℕ → ℕ → Bool → Log → Log → Type 0 where
  spent : {attempt : ℕ} {l : Log} → Tries O url payload zero attempt false l l
  interrupted :
      {left attempt : ℕ} {l m : Log}
      → Pause attempt false l m
      → Tries O url payload (suc left) attempt false l m
  malformed :
      {left attempt : ℕ} {l m : Log} (e : Error)
      → Pause attempt true l m
      → O.new_put url ≡ err e
      → Tries O url payload (suc left) attempt false l m
  settled :
      {left attempt : ℕ} {l m : Log} (r : Result HttpResponse)
      → Pause attempt true l m
      → settles r ≡ true
      → Tries O url payload (suc left) attempt true l (put url payload r ∷ m)
  retried :
      {left attempt : ℕ} {b : Bool} {l m n : Log} (r : Result HttpResponse)
      → Pause attempt true l m
      → settles r ≡ false
      → Tries O url payload left (suc attempt) b (put url payload r ∷ m) n
      → Tries O url payload (suc left) attempt b l n

-- The items are reserved in their order, each after the one before was settled.
pub data Reserving (O : Outside) (inventory_url : String)
    : List OrderItem → Bool → Log → Log → Type 0 where
  reserved : {l : Log} → Reserving O inventory_url [] true l l
  refused :
      {item : OrderItem} {rest : List OrderItem} {l m : Log}
      → Tries O
          (reserve_url inventory_url item.product_id)
          (reserve_payload item.quantity)
          max_attempts
          1
          false
          l
          m
      → Reserving O inventory_url (item ∷ rest) false l m
  granted :
      {item : OrderItem} {rest : List OrderItem} {b : Bool} {l m n : Log}
      → Tries O
          (reserve_url inventory_url item.product_id)
          (reserve_payload item.quantity)
          max_attempts
          1
          true
          l
          m
      → Reserving O inventory_url rest b m n
      → Reserving O inventory_url (item ∷ rest) b l n

abbrev pub new_row : Result (Result ℤ) → Option ℤ
new_row (ok (ok id)) = some id
new_row _ = none

-- A created order: its items, then its shipment, then the event that announces the shipment.
pub data Fulfilling (O : Outside) (inventory_url : String) (event : OrderEvent)
    : Log → Log → Type 0 where
  unreserved :
      {l m : Log}
      → Reserving O inventory_url event.items false l m
      → Fulfilling O inventory_url event l m
  unrecorded :
      {l m : Log} (r : Result (Result ℤ))
      → Reserving O inventory_url event.items true l m
      → new_row r ≡ none
      → Fulfilling O inventory_url event l (ran insert_shipment (event.order_id ∷ []) r ∷ m)
  announced :
      {l m : Log} (id : ℤ) (created_at : String) (r : Result (Unit {0}))
      → Reserving O inventory_url event.items true l m
      → Fulfilling O inventory_url event l (
          produced (shipment_created event.order_id id created_at) r
          ∷ ran insert_shipment (event.order_id ∷ []) (ok (ok id))
          ∷ m)

-- A record: nothing is asked for one that does not decode or is not of a created order.
pub data Processing (O : Outside) (inventory_url : String) (rec : Fetched)
    : Log → Log → Type 0 where
  undecodable :
      {l : Log} (e : Error)
      → O.decode_order_event rec.value ≡ err e
      → Processing O inventory_url rec l l
  ignored :
      {l : Log} (event : OrderEvent)
      → O.decode_order_event rec.value ≡ ok event
      → (event.event_type == "OrderCreated") ≡ false
      → Processing O inventory_url rec l l
  handled :
      {l m : Log} (event : OrderEvent)
      → O.decode_order_event rec.value ≡ ok event
      → (event.event_type == "OrderCreated") ≡ true
      → Fulfilling O inventory_url event l m
      → Processing O inventory_url rec l m
