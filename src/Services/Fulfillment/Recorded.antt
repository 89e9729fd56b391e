-- ===== src/Services/Fulfillment/Recorded.antt =====
-- The outside of the fulfillment service with a record of what was asked of it, the last call first.
-- Any outside can be recorded, so what holds of the record holds whatever the calls return.
use rca_lab.Base.{ℕ, suc, String, List, [], ◌∷◌}
use rca_lab.Base.Int.{ℤ}
use rca_lab.Go.Duration.{Duration}
use rca_lab.Cluster.Exec.{Exec, Result}
use rca_lab.Services.Fulfillment.Outside.{Produced, Fetched, Fetches, HttpResponse, Outside}

pub data Call : Type 0 where
  waited : Duration → Result (Unit {0}) → Call
  put : String → String → Result HttpResponse → Call
  ran : String → List ℤ → Result (Result ℤ) → Call
  produced : Produced → Result (Unit {0}) → Call
  polled : Fetches → Call
  marked : Fetched → Call

module _ {W : Type 0} where
  abbrev noted : {A : Type 0} → (Result A → Call) → Exec W A → Exec (List Call × W) A
  noted call m (log, w) = let (r, w') = m w in (r, (call r ∷ log, w'))

  abbrev unnoted : {A : Type 0} → Exec W A → Exec (List Call × W) A
  unnoted m (log, w) = let (r, w') = m w in (r, (log, w'))

abbrev pub recorded : Outside → Outside
recorded O = record {
  World = List Call × O.World;
  decode_order_event = O.decode_order_event;
  new_put = O.new_put;
  put = λ url body. noted (put url body) (O.put url body);
  wait_or_done = λ d. noted (waited d) (O.wait_or_done d);
  sleep = λ d s. (s.0, O.sleep d s.1);
  exec_sql = λ query args. noted (ran query args) (O.exec_sql query args);
  mysql_number = O.mysql_number;
  ping_db = unnoted O.ping_db;
  ping_kafka = unnoted O.ping_kafka;
  now = λ s. ((O.now s.1).0, (s.0, (O.now s.1).1));
  rfc3339 = O.rfc3339;
  produce_sync = λ rec. noted (produced rec) (O.produce_sync rec);
  poll_fetches =
      λ s. ((O.poll_fetches s.1).0, (polled (O.poll_fetches s.1).0 ∷ s.0, (O.poll_fetches s.1).1));
  context_done = λ s. ((O.context_done s.1).0, (s.0, (O.context_done s.1).1));
  mark_commit = λ rec s. (marked rec ∷ s.0, O.mark_commit rec s.1);
}

-- How many requests to the inventory service, rows of shipments and published events a record has.
abbrev pub puts : List Call → ℕ
puts [] = 0
puts (put _ _ _ ∷ log) = suc (puts log)
puts (_ ∷ log) = puts log

abbrev pub rows : List Call → ℕ
rows [] = 0
rows (ran _ _ _ ∷ log) = suc (rows log)
rows (_ ∷ log) = rows log

abbrev pub publications : List Call → ℕ
publications [] = 0
publications (produced _ _ ∷ log) = suc (publications log)
publications (_ ∷ log) = publications log

abbrev pub reverse_onto : List Fetched → List Fetched → List Fetched
reverse_onto [] onto = onto
reverse_onto (rec ∷ rest) onto = reverse_onto rest (rec ∷ onto)

-- The records that were fetched and those that were marked for commit, the last first.
abbrev pub fetched_records : List Call → List Fetched
fetched_records [] = []
fetched_records (polled fetches ∷ log) = reverse_onto fetches.records (fetched_records log)
fetched_records (_ ∷ log) = fetched_records log

abbrev pub marked_records : List Call → List Fetched
marked_records [] = []
marked_records (marked rec ∷ log) = rec ∷ marked_records log
marked_records (_ ∷ log) = marked_records log
