-- ===== src/Tests/Turns.antt =====
-- A poll of one connector, and a delivery that the service refuses.
use open_data_fusion.Prelude.{
  String, String_discrete, ◌==◌, ◌≡◌, refl, false, true, Option, none, some, [], ◌∷◌, find, ◌⊎◌,
}
use open_data_fusion.Prelude.Result.{ok}
use open_data_fusion.Edge.Queue.{
  Row, Queue, Archive, QueuedBatch, new_row, empty_queue, enqueue, checkpoint, to_batch,
}
use open_data_fusion.Edge.Queue.Rows.{find_row}
use open_data_fusion.Edge.Runner.{
  Batch, Connector, Runner, Retry, Failure, bundle_of, take_batch, poll_connector, drain_one,
}
use open_data_fusion.Edge.Runner.Turns.{outcome, poll_connector-checkpoint, drain_one-outcome}
use open_data_fusion.Tests.Queues.{archive, row, two, taken, two-IsKeyed, claims}

abbrev reading : Batch
reading = record { checkpoint_after = "9"; observed_at = "day 1"; raw_records = []; content = [] }

abbrev plc : Connector
plc = record { source_system = "plc"; poll = λ since. some reading }

abbrev store : String → Batch → Archive
store source batch = archive

abbrev hash : (source checkpoint_after sha256 : String) → String
hash source checkpoint_after sha256 = checkpoint_after

abbrev idle : Runner
idle = record { closed = false; queue = empty_queue }

abbrev polled : Queue
polled = record {
  checkpoints = ("plc", "9") ∷ [];
  batches =
      new_row "b1" "plc" (bundle_of (plc ∷ []) store hash "agent" "plc" reading) "9" archive 7 ∷ [];
}

polls : poll_connector (plc ∷ []) store hash "agent" "plc" "b1" 7 idle ≡ ok (polled, true)
unfolding poll_connector take_batch enqueue String_discrete
polls = refl

poll_connector-checkpoint_example :
    (c : Connector) × (find (λ c. c.source_system == "plc") (plc ∷ []) ≡ some c)
    × (((c.poll (checkpoint "plc" idle.queue) ≡ none) × (idle.queue ≡ polled) × (true ≡ false))
        ⊎ ((batch : Batch) × (c.poll (checkpoint "plc" idle.queue) ≡ some batch)
            × (checkpoint "plc" polled ≡ some batch.checkpoint_after)))
poll_connector-checkpoint_example =
    poll_connector-checkpoint (plc ∷ []) store hash "agent" "plc" "b1" 7 idle polled true polls

abbrev refuse : QueuedBatch → Option Failure
refuse batch = some (record { message = "offline"; retry_after_ms = some 700 })

abbrev retry : Retry
retry = record { base_delay_ms = 100; max_delay_ms = 5000 }

drain_one-outcome_example :
    (next : Queue) × (r : Row) × (drain_one refuse
        (λ n. n)
        retry
        1000
        10
        30
        (record { closed = false; queue = two })
      ≡ ok (next, true))
    × (find_row "b1" taken.batches ≡ some r)
    × (find_row "b1" next.batches
        ≡ some (
            outcome
              (λ n. n)
              retry
              30
              (to_batch (row "b1" "r1" 0))
              (refuse (to_batch (row "b1" "r1" 0)))
              r))
drain_one-outcome_example =
    drain_one-outcome refuse (λ n. n) retry 1000 10 30 two taken (to_batch (row "b1" "r1" 0))
      two-IsKeyed claims
