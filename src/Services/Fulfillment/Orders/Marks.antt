-- ===== src/Services/Fulfillment/Orders/Marks.antt =====
-- Which records are marked for commit (`consumeLoop` of services/fulfillment-service/main.go).
use rca_lab.Base.{
  ◌≡◌, refl, sym, ap, ◌∙◌, ℕ, zero, suc, Bool, true, false, Bool-cases, inl, inr, String, List, [],
  ◌∷◌,
}
use rca_lab.Base.Int.{ℤ}
use rca_lab.Go.Duration.{Duration}
use rca_lab.Cluster.Exec.{Result}
use rca_lab.Services.Fulfillment.Outside.{
  OrderItem, OrderEvent, Produced, HttpResponse, Fetched, Fetches, Outside,
}
use rca_lab.Services.Fulfillment.Recorded.{
  waited, put, ran, produced, polled, recorded, reverse_onto, fetched_records, marked_records,
}
use rca_lab.Services.Fulfillment.Orders.{
  process_record, process_fetches, is_over, after_poll, consume_loop,
}
use rca_lab.Services.Fulfillment.Orders.Protocol.{
  Log, Pause, at_once, after_wait, Tries, spent, interrupted, malformed, settled, retried,
  Reserving, reserved, refused, granted, Fulfilling, unreserved, unrecorded, announced, Processing,
  undecodable, ignored, handled,
}
use rca_lab.Services.Fulfillment.Orders.Runs.{process_record-Processing}

-- The calls of the protocol neither fetch nor mark.
abbrev Quiet : {A : Type 0} → (Log → A) → Type 0
Quiet f =
    ((d : Duration) (r : Result (Unit {0})) (l : Log) → f (waited d r ∷ l) ≡ f l)
    × ((u p : String) (r : Result HttpResponse) (l : Log) → f (put u p r ∷ l) ≡ f l)
    × ((q : String) (a : List ℤ) (r : Result (Result ℤ)) (l : Log) → f (ran q a r ∷ l) ≡ f l)
    × ((p : Produced) (r : Result (Unit {0})) (l : Log) → f (produced p r ∷ l) ≡ f l)

module _ (O : Outside) {A : Type 0} (f : Log → A) (quiet : Quiet f) where
  Pause_quiet : {attempt : ℕ} {b : Bool} {l m : Log} → Pause attempt b l m → f m ≡ f l
  Pause_quiet (at_once h) = refl
  Pause_quiet (after_wait r h) = quiet.0 _ r _

  Tries_quiet :
      {url payload : String} {left attempt : ℕ} {b : Bool} {l m : Log}
      → Tries O url payload left attempt b l m
      → f m ≡ f l
  Tries_quiet spent = refl
  Tries_quiet (interrupted p) = Pause_quiet p
  Tries_quiet (malformed e p q) = Pause_quiet p
  Tries_quiet (settled r p s) = quiet.1 _ _ r _ ∙ Pause_quiet p
  Tries_quiet (retried r p s t) = Tries_quiet t ∙ (quiet.1 _ _ r _ ∙ Pause_quiet p)

  Reserving-quiet :
      {inventory_url : String} {items : List OrderItem} {b : Bool} {l m : Log}
      → Reserving O inventory_url items b l m
      → f m ≡ f l
  Reserving-quiet reserved = refl
  Reserving-quiet (refused t) = Tries_quiet t
  Reserving-quiet (granted t r) = Reserving-quiet r ∙ Tries_quiet t

  Fulfilling-quiet :
      {inventory_url : String} {event : OrderEvent} {l m : Log}
      → Fulfilling O inventory_url event l m
      → f m ≡ f l
  Fulfilling-quiet (unreserved r) = Reserving-quiet r
  Fulfilling-quiet (unrecorded q r e) = quiet.2 _ _ q _ ∙ Reserving-quiet r
  Fulfilling-quiet (announced id t q r) = quiet.3 _ q _ ∙ (quiet.2 _ _ _ _ ∙ Reserving-quiet r)

  Processing-quiet :
      {inventory_url : String} {rec : Fetched} {l m : Log}
      → Processing O inventory_url rec l m
      → f m ≡ f l
  Processing-quiet (undecodable e d) = refl
  Processing-quiet (ignored event d h) = refl
  Processing-quiet (handled event d h p) = Fulfilling-quiet p

module _ (O : Outside) (inventory_url : String) where
  process_record_fetched :
      (rec : Fetched) (l : Log) (w : O.World)
      → fetched_records (process_record (recorded O) inventory_url rec (l, w)).0 ≡ fetched_records l
  process_record_fetched rec l w =
      Processing-quiet O fetched_records
        (λ _ _ _. refl, λ _ _ _ _. refl, λ _ _ _ _. refl, λ _ _ _. refl)
        (process_record-Processing O inventory_url rec l w)

  process_record_marked :
      (rec : Fetched) (l : Log) (w : O.World)
      → marked_records (process_record (recorded O) inventory_url rec (l, w)).0 ≡ marked_records l
  process_record_marked rec l w =
      Processing-quiet O marked_records
        (λ _ _ _. refl, λ _ _ _ _. refl, λ _ _ _ _. refl, λ _ _ _. refl)
        (process_record-Processing O inventory_url rec l w)

  process_fetches_fetched :
      (records : List Fetched) (l : Log) (w : O.World)
      → fetched_records (process_fetches (recorded O) inventory_url records (l, w)).0
        ≡ fetched_records l
  unfolding process_fetches
  process_fetches_fetched [] l w = refl
  process_fetches_fetched (rec ∷ rest) l w =
      process_fetches_fetched rest _ _ ∙ process_record_fetched rec l w

  process_fetches_marked :
      (records : List Fetched) (l : Log) (w : O.World)
      → marked_records (process_fetches (recorded O) inventory_url records (l, w)).0
        ≡ reverse_onto records (marked_records l)
  unfolding process_fetches
  process_fetches_marked [] l w = refl
  process_fetches_marked (rec ∷ rest) l w =
      process_fetches_marked rest _ _
      ∙ ap (λ onto. reverse_onto rest (rec ∷ onto)) (process_record_marked rec l w)

  abbrev Agree : Log → Type 0
  Agree m = marked_records m ≡ fetched_records m

  -- All but what the last poll fetched agree.
  abbrev pub AgreeBefore : Log → Type 0
  AgreeBefore m = (f : Fetches) × (l : Log) × (m ≡ polled f ∷ l) × Agree l

  -- By whether the loop has returned.
  abbrev pub Marked : Bool → Log → Type 0
  Marked true m = AgreeBefore m
  Marked false m = Agree m

  abbrev Outcome : Bool × (Log × O.World) → Type 0
  Outcome out = Marked out.0 out.1.0

  is_over_log : (f : Fetches) (s : Log × O.World) → (is_over (recorded O) f s).1.0 ≡ s.0
  unfolding is_over
  is_over_log f s = elim (Bool-cases f.client_closed) [ inl h ↦ rw h refl | inr h ↦ rw h refl ]

  poll_lem :
      (polls : ℕ) (over : Bool) (f : Fetches) (l m : Log) (w : O.World)
      → m ≡ polled f ∷ l
      → Agree l
      → ((l : Log) (w : O.World)
          → Agree l
          → Outcome (consume_loop (recorded O) polls inventory_url (l, w)))
      → Outcome (
          after_poll
            (recorded O)
            inventory_url
            over
            f.records
            (consume_loop (recorded O) polls inventory_url)
            (m, w))
  unfolding after_poll
  poll_lem polls true f l m w h agree next = (f, l, h, agree)
  poll_lem polls false f l m w h agree next = next _ _ (
      process_fetches_marked f.records m w
      ∙ (ap (λ n. reverse_onto f.records (marked_records n)) h
          ∙ (ap (reverse_onto f.records) agree
              ∙ (ap fetched_records (sym h) ∙ sym (process_fetches_fetched f.records m w)))))

  -- However many polls the loop has made, and whatever became of the records: while it runs, it has
  -- marked for commit every record fetched since its start, each once and in the order of the
  -- fetches. Once it has returned, because the client was closed or the context was done, that holds
  -- of all records but those of its last poll, of which it has marked none.
  pub consume_loop_marks :
      (polls : ℕ) (l : Log) (w : O.World)
      → marked_records l ≡ fetched_records l
      → let out = consume_loop (recorded O) polls inventory_url (l, w) in Marked out.0 out.1.0
  unfolding consume_loop
  consume_loop_marks zero l w h = h
  consume_loop_marks (suc polls) l w h =
      let (f, w') = O.poll_fetches w in
      let out = is_over (recorded O) f (polled f ∷ l, w') in
      poll_lem polls out.0 f l out.1.0 out.1.1 (is_over_log f (polled f ∷ l, w')) h
        (consume_loop_marks polls)
