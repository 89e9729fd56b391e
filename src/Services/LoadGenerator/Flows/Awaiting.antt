-- ===== src/Services/LoadGenerator/Flows/Awaiting.antt =====
-- An order that is created and then polled until it is fulfilled
-- (`createOrderAndAwaitFulfillment` of services/load-generator/main.go).
use rca_lab.Base.{
  ◌≡◌, refl, ℕ, zero, suc, ◌+◌, ◌*◌, ◌≤◌, Bool, true, false, Bool-cases, inl, inr, ◌==◌, ltb,
  String, ◌<>◌, Option, none, some, is_some, arith, if◌then◌else◌,
}
use rca_lab.Base.Int.{ℤ, pos, ◌==ℤ◌, ◌+ℤ◌}
use rca_lab.Base.Text.{show_ℤ}
use rca_lab.Go.Duration.{Time, seconds, after, before}
use rca_lab.Cluster.Exec.{Error, errorf, Exec, Result, ok, err, pure, fail, ◌>>=◌}
use rca_lab.Services.LoadGenerator.Gateway.{HttpResponse, Gateway, do_post}
use rca_lab.Services.LoadGenerator.Flows.{new_order}

module _ (G : Gateway) where
  open G use {World, url, now, sleep, http_get, decode_id, decode_status}

  -- A poll that shows the order fulfilled: neither a failure nor an error status nor another answer.
  is_fulfilled : Result String → Bool
  is_fulfilled (err _) = false
  is_fulfilled (ok status) = status == "FULFILLED"

  unfoldable pub shows_fulfilled : Result HttpResponse → Bool
  unfolding is_fulfilled
  shows_fulfilled (err _) = false
  shows_fulfilled (ok resp) =
      if ltb resp.status_code 400 then is_fulfilled (decode_status resp.body) else false

  abbrev late : ℤ → Error
  late id = errorf ("order " <> (show_ℤ id <> " not FULFILLED within 30s"))

  -- What follows a poll, with the rest of the loop.
  after_poll :
      Bool
      → (World → Option (Result (Unit {0})) × World)
      → World
      → Option (Result (Unit {0})) × World
  after_poll true again w = (some (ok tt), w)
  after_poll false again w = again w

  poll :
      ℤ → (World → Option (Result (Unit {0})) × World) → World → Option (Result (Unit {0})) × World
  unfolding after_poll
  poll id again w =
      let (r, w') = http_get (url <> ("/api/orders/" <> show_ℤ id)) (sleep (seconds 2) w) in
      after_poll (shows_fulfilled r) again w'

  while_before :
      Bool
      → ℤ
      → (World → Option (Result (Unit {0})) × World)
      → World
      → Option (Result (Unit {0})) × World
  unfolding poll
  while_before true id again w = poll id again w
  while_before false id again w = (some (err (late id)), w)

  -- The loop until the deadline, on fuel for so many rounds; none when the fuel runs out.
  unfoldable pub await_fulfilled : ℕ → Time → ℤ → World → Option (Result (Unit {0})) × World
  unfolding while_before
  await_fulfilled zero deadline id w = (none, w)
  await_fulfilled (suc fuel) deadline id w =
      let (t, w') = now w in
      while_before (before t deadline) id (await_fulfilled fuel deadline id) w'

  -- The order's id, which an answer without one leaves at 0.
  created_id : String → Result ℤ → Exec World ℤ
  created_id body (err _) = fail (errorf ("unexpected create order response: " <> body))
  created_id body (ok id) =
      if id ==ℤ pos 0 then fail (errorf ("unexpected create order response: " <> body)) else pure id

  abbrev pub rounds : ℕ
  rounds = 16

  await : Result ℤ → World → Option (Result (Unit {0})) × World
  unfolding await_fulfilled
  await (err e) w = (some (err e), w)
  await (ok id) w = let (t, w') = now w in await_fulfilled rounds (after t (seconds 30)) id w'

  unfoldable pub create_order_and_await_fulfillment : World → Option (Result (Unit {0})) × World
  unfolding created_id await
  create_order_and_await_fulfillment w =
      let (r, w') =
        (new_order G >>= λ payload.
        do_post G (url <> "/api/orders") payload >>= λ body. created_id body (decode_id body))
          w in
      await r w'

-- The clock of the world in nanoseconds: it is what `now` reads, it never goes back, and a sleep takes
-- as long as it says at least.
pub record Clock (G : Gateway) : Type 0 where
  pub at : Gateway.World G → ℕ
  pub now_reads : (w : Gateway.World G) → (Gateway.now G w).0 ≡ pos (at w)
  pub now_keeps : (w : Gateway.World G) → at w ≤ at (Gateway.now G w).1
  pub sleep_takes :
      (s : ℕ) (w : Gateway.World G) → at w + s * 1_000_000_000 ≤ at (Gateway.sleep G (seconds s) w)
  pub get_keeps : (u : String) (w : Gateway.World G) → at w ≤ at (Gateway.http_get G u w).1

module _ (G : Gateway) (C : Clock G) where
  open C use {at, now_reads, now_keeps, sleep_takes, get_keeps}

  -- A round that is not the last one lasts two seconds at least.
  poll-some :
      (fuel deadline : ℕ) (id : ℤ) (r : Result HttpResponse) (w : G.World)
      → ((w : G.World)
          → deadline ≤ at w + fuel * 2_000_000_000
          → is_some (await_fulfilled G (suc fuel) (pos deadline) id w).0 ≡ true)
      → deadline ≤ at w + fuel * 2_000_000_000
      → is_some
          (after_poll G (shows_fulfilled G r) (await_fulfilled G (suc fuel) (pos deadline) id) w).0
        ≡ true
  unfolding after_poll
  poll-some fuel deadline id r w next h = elim (Bool-cases (shows_fulfilled G r)) [
    | inl shown ↦ rw shown refl
    | inr other ↦ rw other (next w h)
  ]

  last_round-some :
      (b : Bool) (deadline : ℕ) (id : ℤ) (again : G.World → Option (Result (Unit {0})) × G.World)
      (t : ℕ) (w : G.World)
      → before (pos t) (pos deadline) ≡ b
      → deadline ≤ t
      → is_some (while_before G b id again w).0 ≡ true
  unfolding while_before
  last_round-some true deadline id again t w early h = ground arith
  last_round-some false deadline id again t w early h = refl

  round-some :
      (b : Bool) (fuel deadline : ℕ) (id : ℤ) (t : ℕ) (w : G.World)
      → ((w : G.World)
          → deadline ≤ at w + fuel * 2_000_000_000
          → is_some (await_fulfilled G (suc fuel) (pos deadline) id w).0 ≡ true)
      → deadline ≤ t + suc fuel * 2_000_000_000
      → t ≤ at w
      → is_some (while_before G b id (await_fulfilled G (suc fuel) (pos deadline) id) w).0 ≡ true
  unfolding while_before poll
  round-some true fuel deadline id t w next h k =
      let asleep = G.sleep (seconds 2) w in
      let url = G.url <> ("/api/orders/" <> show_ℤ id) in
      poll-some fuel deadline id (G.http_get url asleep).0 (G.http_get url asleep).1 next
        (omega (arith, sleep_takes 2 w, get_keeps url asleep))
  round-some false fuel deadline id t w next h k = refl

  await_fulfilled-some :
      (fuel deadline : ℕ) (id : ℤ) (w : G.World)
      → deadline ≤ at w + fuel * 2_000_000_000
      → is_some (await_fulfilled G (suc fuel) (pos deadline) id w).0 ≡ true
  unfolding await_fulfilled
  await_fulfilled-some zero deadline id w h =
      rw (now_reads w) (last_round-some _ deadline id _ (at w) (G.now w).1 refl (omega arith))
  await_fulfilled-some (suc fuel) deadline id w h = rw (now_reads w) (
      round-some _ fuel deadline id (at w) (G.now w).1 (await_fulfilled-some fuel deadline id) h
        (now_keeps w))

  deadline_pos : (n : ℕ) → after (pos n) (seconds 30) ≡ pos (n + 30_000_000_000)
  unfolding after ◌+ℤ◌
  deadline_pos n = ground arith

  await-some : (r : Result ℤ) (w : G.World) → is_some (await G r w).0 ≡ true
  unfolding await
  await-some (err e) w = refl
  await-some (ok id) w =
      rw (now_reads w, deadline_pos (at w))
        (await_fulfilled-some 15 (at w + 30_000_000_000) id (G.now w).1
          (omega (arith, now_keeps w)))

  -- With a clock that never goes back and sleeps that last as long as they say, the 16 rounds are
  -- enough: the flow returns, whatever the gateway answers, that is, it sees the order fulfilled or
  -- reports an error.
  pub create_order_and_await_fulfillment_returns :
      (w : G.World) → is_some (create_order_and_await_fulfillment G w).0 ≡ true
  unfolding create_order_and_await_fulfillment
  create_order_and_await_fulfillment_returns w = await-some _ _
