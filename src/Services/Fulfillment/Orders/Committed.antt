-- ===== src/Services/Fulfillment/Orders/Committed.antt =====
-- What the handling of a record bounds and guarantees, and which records are marked for commit
-- (`processRecord` and `consumeLoop` of services/fulfillment-service/main.go).
use rca_lab.Base.{◌≡◌, ◌≢◌, ◌+◌, ◌*◌, ◌≤◌, true, String, List, [], length, All, arith}
use rca_lab.Cluster.Exec.{Result, ok, err}
use rca_lab.Services.Fulfillment.Outside.{OrderItem, OrderEvent, Fetched, Outside}
use rca_lab.Services.Fulfillment.Recorded.{recorded, puts, rows, publications}
use rca_lab.Services.Fulfillment.Orders.{process_record}
use rca_lab.Services.Fulfillment.Orders.Protocol.{
  Log, Fulfilling, unreserved, unrecorded, announced, Processing, undecodable, ignored, handled,
}
use rca_lab.Services.Fulfillment.Orders.Runs.{process_record-Processing}
use rca_lab.Services.Fulfillment.Orders.Bounds.{
  is_granted, Reserving-counts, Reserving-grants, Fulfilling-counts,
}

abbrev pub decoded_items : Result OrderEvent → List OrderItem
decoded_items (ok event) = event.items
decoded_items (err e) = []

module _ (O : Outside) where
  Processing-counts :
      {inventory_url : String} {rec : Fetched} {l m : Log}
      → Processing O inventory_url rec l m
      → (puts m ≤ puts l + 3 * length (decoded_items (O.decode_order_event rec.value)))
        × (rows m ≤ rows l + 1)
        × (publications m + rows l ≤ rows m + publications l)
  Processing-counts (undecodable e d) = ground arith
  Processing-counts (ignored event d h) = ground arith
  Processing-counts (handled event d h f) = rw d (Fulfilling-counts O f)

  Fulfilling-grants :
      {inventory_url : String} {event : OrderEvent} {l m : Log}
      → Fulfilling O inventory_url event l m
      → publications m ≢ publications l
      → All (λ item. is_granted inventory_url m item ≡ true) event.items
  Fulfilling-grants (unreserved r) more = ground (arith, Reserving-counts O r)
  Fulfilling-grants (unrecorded q r e) more = ground (arith, Reserving-counts O r)
  Fulfilling-grants (announced id t q r) more = Reserving-grants O r

  Processing-grants :
      {inventory_url : String} {rec : Fetched} {l m : Log}
      → Processing O inventory_url rec l m
      → publications m ≢ publications l
      → All
          (λ item. is_granted inventory_url m item ≡ true)
          (decoded_items (O.decode_order_event rec.value))
  Processing-grants (undecodable e d) more = ground arith
  Processing-grants (ignored event d h) more = ground arith
  Processing-grants (handled event d h f) more = rw d (Fulfilling-grants f more)

  module _ (inventory_url : String) where
    -- Whatever the calls return, the handling of a record asks for at most three reservations for
    -- each of its items and writes at most one row, and it publishes no more events than it writes
    -- rows.
    pub process_record_bounds :
        (rec : Fetched) (l : Log) (w : O.World)
        → let m = (process_record (recorded O) inventory_url rec (l, w)).0 in
          (puts m ≤ puts l + 3 * length (decoded_items (O.decode_order_event rec.value)))
          × (rows m ≤ rows l + 1)
          × (publications m + rows l ≤ rows m + publications l)
    process_record_bounds rec l w =
        Processing-counts (process_record-Processing O inventory_url rec l w)

    -- A record whose handling publishes an event has each of its order's items granted: the inventory
    -- service answered a request for the item, in its quantity, with a status below 300 or with 409.
    pub process_record_grants :
        (rec : Fetched) (l : Log) (w : O.World)
        → let m = (process_record (recorded O) inventory_url rec (l, w)).0 in
          publications m ≢ publications l
          → All
              (λ item. is_granted inventory_url m item ≡ true)
              (decoded_items (O.decode_order_event rec.value))
    process_record_grants rec l w =
        Processing-grants (process_record-Processing O inventory_url rec l w)
