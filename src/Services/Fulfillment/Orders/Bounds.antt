-- ===== src/Services/Fulfillment/Orders/Bounds.antt =====
-- What the protocol of an order bounds and what it guarantees about an announced shipment
-- (services/fulfillment-service/main.go).
use rca_lab.Base.{
  ◌≡◌, refl, ℕ, ◌+◌, ◌*◌, ◌≤◌, Bool, true, false, ◌&&◌, String, List, length, any, All, ◌==◌,
  eq_iff, arith,
}
use rca_lab.Services.Fulfillment.Outside.{OrderItem, OrderEvent, Outside}
use rca_lab.Services.Fulfillment.Recorded.{Call, put, puts, rows, publications}
use rca_lab.Services.Fulfillment.Orders.{reserve_url, reserve_payload}
use rca_lab.Services.Fulfillment.Orders.Protocol.{
  Log, settles, Pause, at_once, after_wait, Tries, spent, interrupted, malformed, settled, retried,
  Reserving, reserved, refused, granted, Fulfilling, unreserved, unrecorded, announced,
}

-- The call is a request for this reservation whose answer settles it.
abbrev pub is_grant : String → String → Call → Bool
is_grant url payload (put u p r) = (u == url) && ((p == payload) && settles r)
is_grant url payload _ = false

-- The stock of the item was reserved, or found insufficient.
abbrev pub is_granted : String → Log → OrderItem → Bool
is_granted inventory_url log item =
    any (is_grant (reserve_url inventory_url item.product_id) (reserve_payload item.quantity)) log

module _ (O : Outside) where
  Pause_counts :
      {attempt : ℕ} {b : Bool} {l m : Log}
      → Pause attempt b l m
      → (puts m ≡ puts l) × (rows m ≡ rows l) × (publications m ≡ publications l)
  Pause_counts (at_once h) = (refl, refl, refl)
  Pause_counts (after_wait r h) = (refl, refl, refl)

  Tries_counts :
      {url payload : String} {left attempt : ℕ} {b : Bool} {l m : Log}
      → Tries O url payload left attempt b l m
      → (puts m ≤ puts l + left) × (rows m ≡ rows l) × (publications m ≡ publications l)
  Tries_counts spent = (omega arith, refl, refl)
  Tries_counts (interrupted p) = ground (arith, Pause_counts p)
  Tries_counts (malformed e p q) = ground (arith, Pause_counts p)
  Tries_counts (settled r p s) = ground (arith, Pause_counts p)
  Tries_counts (retried r p s t) = ground (arith, Pause_counts p, Tries_counts t)

  pub Reserving-counts :
      {inventory_url : String} {items : List OrderItem} {b : Bool} {l m : Log}
      → Reserving O inventory_url items b l m
      → (puts m ≤ puts l + 3 * length items) × (rows m ≡ rows l) × (publications m ≡ publications l)
  Reserving-counts reserved = (omega arith, refl, refl)
  Reserving-counts (refused t) = ground (arith, Tries_counts t)
  Reserving-counts (granted t r) = ground (arith, Tries_counts t, Reserving-counts r)

  pub Fulfilling-counts :
      {inventory_url : String} {event : OrderEvent} {l m : Log}
      → Fulfilling O inventory_url event l m
      → (puts m ≤ puts l + 3 * length event.items)
        × (rows m ≤ rows l + 1)
        × (publications m + rows l ≤ rows m + publications l)
  Fulfilling-counts (unreserved r) = ground (arith, Reserving-counts r)
  Fulfilling-counts (unrecorded q r e) = ground (arith, Reserving-counts r)
  Fulfilling-counts (announced id t q r) = ground (arith, Reserving-counts r)

  module _ (p : Call → Bool) where
    Pause_keeps :
        {attempt : ℕ} {b : Bool} {l m : Log} → Pause attempt b l m → any p l ≡ true → any p m ≡ true
    Pause_keeps (at_once h) found = found
    Pause_keeps (after_wait r h) found = ground arith

    Tries_keeps :
        {url payload : String} {left attempt : ℕ} {b : Bool} {l m : Log}
        → Tries O url payload left attempt b l m
        → any p l ≡ true
        → any p m ≡ true
    Tries_keeps spent found = found
    Tries_keeps (interrupted q) found = Pause_keeps q found
    Tries_keeps (malformed e q h) found = Pause_keeps q found
    Tries_keeps (settled r q s) found = ground (arith, Pause_keeps q found)
    Tries_keeps (retried r q s t) found = Tries_keeps t (ground (arith, Pause_keeps q found))

    Reserving-keeps :
        {inventory_url : String} {items : List OrderItem} {b : Bool} {l m : Log}
        → Reserving O inventory_url items b l m
        → any p l ≡ true
        → any p m ≡ true
    Reserving-keeps reserved found = found
    Reserving-keeps (refused t) found = Tries_keeps t found
    Reserving-keeps (granted t r) found = Reserving-keeps r (Tries_keeps t found)

  Tries_grant :
      {url payload : String} {left attempt : ℕ} {l m : Log}
      → Tries O url payload left attempt true l m
      → any (is_grant url payload) m ≡ true
  Tries_grant {url} {payload} (settled r q s) =
      ground (arith, eq_iff url url, eq_iff payload payload)
  Tries_grant (retried r q s t) = Tries_grant t

  pub Reserving-grants :
      {inventory_url : String} {items : List OrderItem} {l m : Log}
      → Reserving O inventory_url items true l m
      → All (λ item. is_granted inventory_url m item ≡ true) items
  Reserving-grants reserved = tt
  Reserving-grants (granted t r) = (Reserving-keeps _ r (Tries_grant t), Reserving-grants r)
