-- ===== src/Edge/Runner.antt =====
-- The turns of the edge agent: `pollConnector` and `drainOne` of the class `EdgeAgentRunner` in
-- apps/edge-agent/src/runner.ts, over the durable queue. The connectors, the
-- archive, the hash, the delivery service and the random factor are parameters. Logging is left out.
pub mod Turns
use Prim.Native.String.{◌++◌ as ◌concat◌}
use open_data_fusion.Prelude.{
  String, ◌==◌, ℕ, zero, suc, ◌+◌, ◌*◌, ◌-◌, ◌^◌, Bool, true, false, not, ◌&&◌, ◌||◌, Option, none,
  some, List, [], ◌∷◌, if◌then◌else◌, find, leb,
}
use open_data_fusion.Prelude.Json.{Object}
use open_data_fusion.Prelude.Result.{Result, ok, err, ◌>>=◌, ◌>>◌, guard}
use open_data_fusion.Edge.Queue.{
  Queue, QueuedBatch, Bundle, Archive, Error, checkpoint, enqueue, claim, mark_sent, release,
  not_leased, constraint,
}

-- What a connector reads: the records, the five lists as one value, and where it stopped.
pub record Batch : Type 0 where
  pub checkpoint_after : String
  pub observed_at : String
  pub raw_records : List Object
  pub content : Object

pub record Connector : Type 0 where
  pub source_system : String
  pub poll : (checkpoint : Option String) → Option Batch

pub data RunnerError : Type 0 where
  runner_closed : RunnerError
  unknown_connector collision : (source_system : String) → RunnerError
  queue_error : Error → RunnerError

pub record Runner : Type 0 where
  pub closed : Bool
  pub queue : Queue

abbrev pub lift : {A : Type 0} → Result Error A → Result RunnerError A
lift (ok a) = ok a
lift (err e) = err (queue_error e)

abbrev pub is_checkpoint : String → Option String → Bool
is_checkpoint text none = false
is_checkpoint text (some c) = c == text

module _ (connectors : List Connector) (archive : String → Batch → Archive)
    (run_id : (source checkpoint_after sha256 : String) → String) (actor : String) where
  abbrev pub bundle_of : String → Batch → Bundle
  bundle_of source batch = record {
    system = source;
    run_id = run_id source batch.checkpoint_after (archive source batch).sha256;
    actor = actor;
    content = batch.content;
  }

  -- What follows the answer of the connector.
  unfoldable pub take_batch :
      (source id : String) → (now : ℕ) → Option Batch → Queue → Result RunnerError (Queue × Bool)
  take_batch source id now none q = ok (q, false)
  take_batch source id now (some batch) q = do
    (next, inserted) ← lift (
        enqueue id source (bundle_of source batch) batch.checkpoint_after (archive source batch) now
          q)
    guard (inserted || is_checkpoint batch.checkpoint_after (checkpoint source next))
        (collision source)
    ok (next, inserted)

  abbrev pub require : String → Option Connector → Result RunnerError Connector
  require source none = err (unknown_connector source)
  require source (some c) = ok c

  unfoldable pub poll_connector :
      (source id : String) → (now : ℕ) → Runner → Result RunnerError (Queue × Bool)
  unfolding take_batch
  poll_connector source id now runner = do
    guard (not runner.closed) runner_closed
    managed ← require source (find (λ c. c.source_system == source) connectors)
    take_batch source id now (managed.poll (checkpoint source runner.queue)) runner.queue

pub record Retry : Type 0 where
  pub base_delay_ms : ℕ
  pub max_delay_ms : ℕ

-- A delivery that failed: the message, and what the service asks to wait.
pub record Failure : Type 0 where
  pub message : String
  pub retry_after_ms : Option ℕ

abbrev pub minimum : ℕ → ℕ → ℕ
minimum a b = if leb a b then a else b

abbrev pub maximum : ℕ → ℕ → ℕ
maximum a b = if leb a b then b else a

abbrev pub or_zero : Option ℕ → ℕ
or_zero none = 0
or_zero (some n) = n

-- `jittered` is the rounded product with the random factor.
unfoldable pub retry_delay : Retry → (jittered : ℕ → ℕ) → (attempt : ℕ) → Option ℕ → ℕ
retry_delay retry jittered attempt retry_after = minimum retry.max_delay_ms (
    maximum
      (jittered (minimum retry.max_delay_ms (retry.base_delay_ms * 2 ^ minimum (attempt - 1) 30)))
      (or_zero retry_after))

-- The message of an error of the queue; `markSent` throws the first one only.
abbrev pub message_of : Error → String
message_of (not_leased id) = "Queued batch '" concat (id concat "' is not leased for sending")
message_of constraint = "constraint failed"

module _ (deliver : QueuedBatch → Option Failure) (jittered : ℕ → ℕ) (retry : Retry)
    (lease_ms : ℕ) where
  -- The `catch`.
  unfoldable pub put_off : (later : ℕ) → QueuedBatch → Failure → Queue → Result RunnerError Queue
  unfolding retry_delay
  put_off later batch failure q = lift (
      release batch.id failure.message
        (retry_delay retry jittered batch.attempt_count failure.retry_after_ms) later q)

  -- What follows `markSent`, which stands in the `try`.
  unfoldable pub finish :
      (later : ℕ) → QueuedBatch → Queue → Result Error Queue → Result RunnerError Queue
  unfolding put_off
  finish later batch q (ok next) = ok next
  finish later batch q (err e) =
      put_off later batch (record { message = message_of e; retry_after_ms = none }) q

  -- What follows the answer of the service.
  unfoldable pub settle :
      (later : ℕ) → QueuedBatch → Option Failure → Queue → Result RunnerError Queue
  unfolding finish
  settle later batch none q = finish later batch q (mark_sent batch.id later q)
  settle later batch (some failure) q = put_off later batch failure q

  -- The claim is at `now`, the answer of the service at `later`.
  unfoldable pub deliver_claimed :
      (later : ℕ) → Queue × Option QueuedBatch → Result RunnerError (Queue × Bool)
  unfolding settle
  deliver_claimed later (q, none) = ok (q, false)
  deliver_claimed later (q, some batch) = do
    next ← settle later batch (deliver batch) q
    ok (next, true)

  unfoldable pub drain_one : (now later : ℕ) → Runner → Result RunnerError (Queue × Bool)
  unfolding deliver_claimed
  drain_one now later runner = do
    guard (not runner.closed) runner_closed
    deliver_claimed later (claim lease_ms now runner.queue)
