-- ===== src/Outbox/Pump.antt =====
-- One turn of the worker: `OutboxPump.runOnce` of apps/outbox-worker/src/outbox.ts. The publisher is a
-- parameter: for each event of the batch the error's message, or `none` if the event was accepted. So
-- is the clock: the time at which the event's row is written.
pub mod Counts
use Prim.Native.String.{◌++◌ as ◌concat◌}
use open_data_fusion.Prelude.{
  String, ℕ, zero, suc, ◌+◌, ◌*◌, ◌^◌, Bool, true, false, not, Option, none, some, List, [], ◌∷◌,
  if◌then◌else◌, length, nat_eq, ltb, leb,
}
use open_data_fusion.Prelude.Decimal.{decimal_text}
use open_data_fusion.Prelude.Message.{one_line}
use open_data_fusion.Prelude.Result.{Result, ok, err, ◌>>=◌}
use open_data_fusion.Outbox.Table.{
  Row, Event, Error, claim, mark_published, release, dead_letter, not_owned, limit_out_of_range,
  no_reason,
}

pub record Options : Type 0 where
  pub worker_id : String
  pub batch_size : ℕ
  pub lease_milliseconds : ℕ
  pub maximum_retry_delay_milliseconds : ℕ
  pub maximum_delivery_attempts : ℕ

pub record PumpResult : Type 0 where
  pub claimed : ℕ
  pub published : ℕ
  pub failed : ℕ
  pub dead_lettered : ℕ

abbrev pub minimum : ℕ → ℕ → ℕ
minimum a b = if leb a b then a else b

unfoldable pub retry_delay : Event → (maximum : ℕ) → ℕ
retry_delay event maximum = minimum maximum (1000 * 2 ^ minimum event.attempt_count 8)

-- The message of the error that an UPDATE of the worker's lease throws.
abbrev pub message_of : Error → String
message_of (not_owned id) =
    "Outbox lease for event '" concat (decimal_text id concat "' is no longer owned by this worker")
message_of limit_out_of_range = "Dead-letter list limit must be between 1 and 500"
message_of no_reason = "A non-empty recovery reason is required"

-- The table and the four counters.
pub record Progress : Type 0 where
  pub rows : List Row
  pub published : ℕ
  pub failed : ℕ
  pub dead_lettered : ℕ

abbrev pub tally : (claimed : ℕ) → Progress → PumpResult
tally claimed p = record {
  claimed = claimed;
  published = p.published;
  failed = p.failed;
  dead_lettered = p.dead_lettered;
}

module _ (publish : Event → Option String) (clock : Event → ℕ) (options : Options) where
  -- The `catch` of the loop.
  unfoldable pub fail : Event → String → Progress → Result Error Progress
  unfolding retry_delay
  fail event error p =
      let message = one_line 2000 error in
      if leb options.maximum_delivery_attempts event.attempt_count
      then (do
        next ← dead_letter event.event_id options.worker_id message p.rows
        ok (record p { rows = next; failed = p.failed + 1; dead_lettered = p.dead_lettered + 1 }))
      else (do
        next ←
            release event.event_id options.worker_id message
              (retry_delay event options.maximum_retry_delay_milliseconds) (clock event) p.rows
        ok (record p { rows = next; failed = p.failed + 1 }))

  -- The event was accepted: the end of the `try`.
  unfoldable pub settle : Event → Progress → Result Error (List Row) → Result Error Progress
  unfolding fail
  settle event p (ok next) = ok (record p { rows = next; published = p.published + 1 })
  settle event p (err e) = fail event (message_of e) p

  unfoldable pub attempt : Event → Option String → Progress → Result Error Progress
  unfolding settle
  attempt event none p =
      settle event p (mark_published event.event_id options.worker_id (clock event) p.rows)
  attempt event (some error) p = fail event error p

  unfoldable pub deliver_each : List Event → Progress → Result Error Progress
  unfolding attempt
  deliver_each [] p = ok p
  deliver_each (event ∷ events) p = do
    next ← attempt event (publish event) p
    deliver_each events next

  unfoldable pub run_once : (now : ℕ) → List Row → Result Error (List Row × PumpResult)
  unfolding deliver_each
  run_once now rows = do
    let (held, events) =
        claim options.batch_size options.worker_id options.lease_milliseconds now rows
    p ← deliver_each events (record { rows = held; published = 0; failed = 0; dead_lettered = 0 })
    ok (p.rows, tally (length events) p)
