-- ===== src/Api/Stream/Tests.antt =====
-- Feeds of an order that is not found, and of one that is delivered.
use dinner_rush.Prelude.{true, false, none, some, List, [], ◌∷◌, ◌≡◌, refl, arith, inr}
use dinner_rush.OrderApi.{CartView, OrderRow, OrderStatus}
use dinner_rush.Api.Stream.{
  Timer, Feed, threw, read, is_terminal, Event, aborted, ticked, run_events, run_feed,
}
use dinner_rush.Api.Stream.Laws.{IsRunning, run_feed-IsRunning, run_feed_stuck, terminal_closes}

abbrev row : OrderRow
row = record {
  id = "t";
  status = OrderStatus.delivered;
  headcount = 20;
  customer_name = none;
  customer_email = none;
  company_name = none;
  occasion = none;
  delivery_date = none;
  delivery_time = none;
  address1 = none;
  city = none;
  zip = none;
  currency = "usd";
  subtotal_cents = 0;
  delivery_fee_cents = 0;
  service_fee_cents = 0;
  tax_cents = 0;
  tip_cents = 0;
  total_cents = 0;
  failure_reason = none;
  created_at = "2026-01-01";
}

abbrev missing : CartView
missing = record { order = none; items = []; fulfillments = []; deliveries = []; transitions = [] }

abbrev delivered : CartView
delivered = record missing { order = some row }

abbrev later : List Event
later = ticked (read delivered) 2000 ∷ aborted ∷ []

run_feed-IsRunning_example : IsRunning (run_feed false (read delivered) 1000 later)
run_feed-IsRunning_example = run_feed-IsRunning (read delivered) 1000 later (λ e. cc (e))

run_feed_stuck_example :
    let u = run_feed false (read missing) 1000 later in
    (u.closed ≡ true) × (u.timer ≡ Timer.running) × (u.ended ≡ false)
run_feed_stuck_example = run_feed_stuck false (read missing) 1000 later (inr refl)

abbrev running : Feed
running = record {
  closed = false;
  timer = Timer.running;
  ended = false;
  terminal_seen_at = 0;
  frames = [];
}

running-IsRunning : IsRunning running
running-IsRunning = record { ended = refl; cleared = refl }

abbrev between : List Event
between = ticked threw 2000 ∷ ticked (read delivered) 3000 ∷ []

terminal_closes_example :
    let u =
      run_events
        (ticked (read delivered) 1000
          ∷ ticked threw 2000
          ∷ ticked (read delivered) 3000
          ∷ ticked (read delivered) 4000
          ∷ [])
        running in
    (u.closed ≡ true) × (u.ended ≡ true)
unfolding is_terminal
terminal_closes_example =
    terminal_closes running delivered delivered row row 1000 4000 between refl refl is_over is_over
      (omega arith) (omega arith) (omega arith) running-IsRunning
  where
    is_over : is_terminal OrderStatus.delivered ≡ true
    is_over = refl
