-- ===== src/Tests/Fulfillment.antt =====
-- An order in the fulfillment service: two items, and a third of the requests fail.
use rca_lab.Base.{
  ℕ, suc, ◌%◌, ◌==ℕ◌, ltb, false, ◌≡◌, ◌≢◌, refl, arith, String, [], ◌∷◌, All, true, none,
  if◌then◌else◌,
}
use rca_lab.Base.Int.{pos}
use rca_lab.Cluster.Exec.{ok}
use rca_lab.Services.Fulfillment.Outside.{OrderEvent, Fetched, Outside}
use rca_lab.Services.Fulfillment.Recorded.{recorded, publications}
use rca_lab.Services.Fulfillment.Orders.{
  process_record, reserve_inventory, create_shipment, publish_shipment_created, reserve_all,
  fulfill, consume_loop,
}
use rca_lab.Services.Fulfillment.Orders.Protocol.{Processing}
use rca_lab.Services.Fulfillment.Orders.Runs.{process_record-Processing}
use rca_lab.Services.Fulfillment.Orders.Bounds.{is_granted}
use rca_lab.Services.Fulfillment.Orders.Committed.{process_record_grants}
use rca_lab.Services.Fulfillment.Orders.Marks.{Marked, consume_loop_marks}

abbrev created : OrderEvent
created = record {
  event_type = "OrderCreated";
  order_id = pos 7;
  user_id = "user-1";
  items =
      record { product_id = pos 11; quantity = pos 2; price = "1.5" }
      ∷ record { product_id = pos 12; quantity = pos 1; price = "3" }
      ∷ [];
  total_amount = "6";
  created_at = "";
}

-- Its world counts the calls; every third request finds the inventory service down.
abbrev shop : Outside
shop = record {
  World = ℕ;
  decode_order_event = λ s. ok created;
  new_put = λ url. ok tt;
  put = λ url body w.
      (ok (record { status_code = if w % 3 ==ℕ 0 then 503 else 200; body = "" }), suc w);
  wait_or_done = λ d w. (ok tt, w);
  sleep = λ d w. w;
  exec_sql = λ query args w. (ok (ok (pos 40)), w);
  mysql_number = λ e. none;
  ping_db = λ w. (ok tt, w);
  ping_kafka = λ w. (ok tt, w);
  now = λ w. (pos 0, w);
  rfc3339 = λ t. "2026-01-01T00:00:00Z";
  produce_sync = λ rec w. (ok tt, w);
  poll_fetches = λ w. (
    record {
      client_closed = false;
      records = record { partition = 0; offset = w; value = "{}" } ∷ [];
    },
    suc w,
  );
  context_done = λ w. (ltb 6 w, w);
  mark_commit = λ rec w. w;
}

abbrev inventory : String
inventory = "http://inventory"

abbrev order_record : Fetched
order_record = record { partition = 0; offset = 5; value = "{}" }

process_record-Processing_example :
    Processing shop inventory order_record []
      (process_record (recorded shop) inventory order_record ([], 0)).0
process_record-Processing_example = process_record-Processing shop inventory order_record [] 0

publishes : publications (process_record (recorded shop) inventory order_record ([], 0)).0 ≡ 1
unfolding process_record fulfill reserve_all reserve_inventory create_shipment
    publish_shipment_created
publishes = refl

publishes_one :
    publications (process_record (recorded shop) inventory order_record ([], 0)).0 ≢ publications []
publishes_one h = ground (arith, publishes)

process_record_grants_example :
    All
      (λ item.
        is_granted inventory (process_record (recorded shop) inventory order_record ([], 0)).0 item
        ≡ true)
      created.items
process_record_grants_example = process_record_grants shop inventory order_record [] 0 publishes_one

consume_loop_marks_example :
    let out = consume_loop (recorded shop) 2 inventory ([], 0) in
    Marked shop inventory out.0 out.1.0
consume_loop_marks_example = consume_loop_marks shop inventory 2 [] 0 refl
