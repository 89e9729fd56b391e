-- ===== src/Services/Fulfillment/Orders/Runs.antt =====
-- The handling of a record follows the protocol (services/fulfillment-service/main.go), whatever the
-- outside answers.
use rca_lab.Base.{
  ◌≡◌, refl, ℕ, zero, suc, Bool, true, ltb, Bool-cases, inl, inr, String, List, [], ◌∷◌, some, ◌==◌,
}
use rca_lab.Base.Int.{ℤ}
use rca_lab.Cluster.Exec.{Error, Exec, Result, ok, err, is_ok, continue, observe, ◌>>=◌, ◌>>◌}
use rca_lab.Services.Fulfillment.Outside.{OrderItem, OrderEvent, Fetched, HttpResponse, Outside}
use rca_lab.Services.Fulfillment.Recorded.{put, ran, recorded}
use rca_lab.Services.Fulfillment.Orders.{
  max_attempts, reserve_url, reserve_payload, is_settled, status_error, insert_shipment, pause,
  give_up, made_request, settle, attempts, reserve_inventory, create_shipment, made_request_id,
  publish_shipment_created, reserve_all, fulfill, process_event, process_record,
}
use rca_lab.Services.Fulfillment.Orders.Protocol.{
  Log, Pause, at_once, after_wait, Tries, spent, interrupted, malformed, settled, retried,
  Reserving, reserved, refused, granted, Fulfilling, unreserved, unrecorded, announced, Processing,
  undecodable, ignored, handled,
}

-- The calls of `out` lead from `l` to its log, with its success, as the relation allows.
abbrev Follows : {A W : Type 0} → (Bool → Log → Log → Type 0) → Log → Result A × (Log × W) → Type 0
Follows R l (r, (m, w)) = R (is_ok r) l m

module _ (O : Outside) where
  pause-Follows :
      (attempt : ℕ) (l : Log) (w : O.World)
      → Follows (Pause attempt) l (pause (recorded O) attempt (l, w))
  unfolding pause
  pause-Follows attempt l w = elim (Bool-cases (ltb 1 attempt)) [
    | inl h ↦ rw h (after_wait _ h)
    | inr h ↦ rw h (at_once h)
  ]

  module _ (url payload : String) where
    -- An attempt, and those after it if the request settles nothing.
    module _ (left attempt : ℕ) (again : Error → Exec (recorded O).World (Unit {0})) where
      abbrev Again : Type 0
      Again =
          (e : Error) (l : Log) (w : O.World)
          → Follows (Tries O url payload left (suc attempt)) l (again e (l, w))

      after_put :
          {l m : Log}
          → Again
          → Pause attempt true l m
          → (r : Result HttpResponse) (w : O.World)
          → Follows
              (Tries O url payload (suc left) attempt)
              l
              (settle (recorded O) r again (put url payload r ∷ m, w))
      unfolding settle
      after_put next p (err e) w = retried (err e) p refl (next e _ w)
      after_put next p (ok resp) w = elim (Bool-cases (is_settled resp)) [
        | inl h ↦ rw h (settled (ok resp) p h)
        | inr h ↦ rw h (retried (ok resp) p h (next (status_error resp) _ w))
      ]

      after_request :
          {l m : Log}
          → Again
          → Pause attempt true l m
          → (q : Result (Unit {0})) (w : O.World) → O.new_put url ≡ q
          → Follows (Tries O url payload (suc left) attempt) l (
              (made_request (recorded O) q
                  >> observe ((recorded O).put url payload) (λ r. settle (recorded O) r again))
                (m, w))
      unfolding made_request
      after_request next p (err e) w q = malformed e p q
      after_request next p (ok _) w q =
          after_put next p (O.put url payload w).0 (O.put url payload w).1

      after_pause :
          {l : Log}
          → Again
          → (b : Result (Unit {0})) (m : Log) (w : O.World) → Follows (Pause attempt) l (b, (m, w))
          → Follows (Tries O url payload (suc left) attempt) l (
              continue
                (continue b (λ _. made_request (recorded O) (O.new_put url)) (m, w)).0
                (λ _. observe ((recorded O).put url payload) (λ r. settle (recorded O) r again))
                (continue b (λ _. made_request (recorded O) (O.new_put url)) (m, w)).1)
      after_pause next (err e) m w p = interrupted p
      after_pause next (ok _) m w p = after_request next p (O.new_put url) w refl

    attempts-Tries :
        (left attempt : ℕ) (e : Error) (l : Log) (w : O.World)
        → Follows
            (Tries O url payload left attempt)
            l
            (attempts (recorded O) left attempt (some e) url payload (l, w))
    unfolding attempts give_up
    attempts-Tries zero attempt e l w = spent
    attempts-Tries (suc left) attempt e l w =
        after_pause left attempt
          (λ e. attempts (recorded O) left (suc attempt) (some e) url payload)
          (attempts-Tries left (suc attempt)) _ _ _ (pause-Follows attempt l w)

  module _ (inventory_url : String) where
    -- A reservation keeps to its tries.
    reserve_inventory-Tries :
        (item : OrderItem) (l : Log) (w : O.World)
        → Follows
            (Tries O
              (reserve_url inventory_url item.product_id)
              (reserve_payload item.quantity)
              max_attempts
              1)
            l
            (reserve_inventory (recorded O) inventory_url item.product_id item.quantity (l, w))
    unfolding reserve_inventory attempts
    reserve_inventory-Tries item l w =
        after_pause _ _ 2 1 (λ e. attempts (recorded O) 2 2 (some e) _ _) (attempts-Tries _ _ 2 2)
          (pause (recorded O) 1 (l, w)).0 _ (pause (recorded O) 1 (l, w)).1.1 (pause-Follows 1 l w)

    after_item :
        (item : OrderItem) (rest : List OrderItem) {l : Log} (r : Result (Unit {0})) (m : Log)
        (w : O.World)
        → Follows
            (Tries O
              (reserve_url inventory_url item.product_id)
              (reserve_payload item.quantity)
              max_attempts
              1)
            l
            (r, (m, w))
        → ((m : Log) (w : O.World)
            → Follows
                (Reserving O inventory_url rest)
                m
                (reserve_all (recorded O) inventory_url rest (m, w)))
        → Follows
            (Reserving O inventory_url (item ∷ rest))
            l
            (continue r (λ _. reserve_all (recorded O) inventory_url rest) (m, w))
    after_item item rest (err e) m w p next = refused p
    after_item item rest (ok _) m w p next = granted p (next m w)

    reserve_all-Reserving :
        (items : List OrderItem) (l : Log) (w : O.World)
        → Follows
            (Reserving O inventory_url items)
            l
            (reserve_all (recorded O) inventory_url items (l, w))
    unfolding reserve_all
    reserve_all-Reserving [] l w = reserved
    reserve_all-Reserving (item ∷ rest) l w =
        let out =
          reserve_inventory (recorded O) inventory_url item.product_id item.quantity (l, w) in
        after_item item rest out.0 _ out.1.1 (reserve_inventory-Tries item l w)
          (reserve_all-Reserving rest)

    module _ (event : OrderEvent) where
      abbrev announce : ℤ → Exec (recorded O).World (Unit {0})
      announce = publish_shipment_created (recorded O) event.order_id

      after_insert :
          {l m : Log} (r : Result (Result ℤ)) (w : O.World)
          → Reserving O inventory_url event.items true l m
          → Fulfilling O inventory_url event l
              ((continue r (made_request_id (recorded O)) >>= announce)
                (ran insert_shipment (event.order_id ∷ []) r ∷ m, w)).1.0
      unfolding made_request_id publish_shipment_created
      after_insert (err e) w p = unrecorded _ p refl
      after_insert (ok (err e)) w p = unrecorded _ p refl
      after_insert (ok (ok id)) w p = announced id _ _ p

      after_items :
          {l : Log} (r : Result (Unit {0})) (m : Log) (w : O.World)
          → Follows (Reserving O inventory_url event.items) l (r, (m, w))
          → Fulfilling O inventory_url event l
              (continue r
                (λ _. create_shipment (recorded O) event.order_id >>= announce)
                (m, w)).1.0
      unfolding create_shipment
      after_items (err e) m w p = unreserved p
      after_items (ok _) m w p = after_insert _ _ p

      fulfill-Fulfilling :
          (l : Log) (w : O.World)
          → Fulfilling O inventory_url event l (fulfill (recorded O) inventory_url event (l, w)).1.0
      unfolding fulfill
      fulfill-Fulfilling l w =
          let out = reserve_all (recorded O) inventory_url event.items (l, w) in
          after_items out.0 _ out.1.1 (reserve_all-Reserving event.items l w)

    after_decode :
        (rec : Fetched) (d : Result OrderEvent) (l : Log) (w : O.World)
        → O.decode_order_event rec.value ≡ d
        → Processing O inventory_url rec l (process_event (recorded O) inventory_url d (l, w)).0
    after_decode rec (err e) l w d = undecodable e d
    after_decode rec (ok event) l w d = elim (Bool-cases (event.event_type == "OrderCreated")) [
      | inl h ↦ rw h (handled event d h (fulfill-Fulfilling event l w))
      | inr h ↦ rw h (ignored event d h)
    ]

    -- Whatever the calls return, the calls that the handling of a record makes are those of the
    -- protocol: nothing for a record that does not decode or is not of a created order; else the
    -- reservations of the items in order, each in at most three requests with the stated waits and
    -- ended by an answer below 300 or 409, then, only if all were settled, one new row, and then, only
    -- if it was written, the one event that announces it.
    pub process_record-Processing :
        (rec : Fetched) (l : Log) (w : O.World)
        → Processing O inventory_url rec l (process_record (recorded O) inventory_url rec (l, w)).0
    unfolding process_record
    process_record-Processing rec l w = after_decode rec _ l w refl
