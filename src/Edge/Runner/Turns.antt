-- ===== src/Edge/Runner/Turns.antt =====
-- What a turn of the edge agent does to the queue.
use open_data_fusion.Prelude.{
  String, ◌==◌, ==_refl, ℕ, ◌+◌, ◌-◌, ◌*◌, ◌^◌, min, max, ap, ◌≡◌, refl, sym, ◌∙◌, subst, Bool,
  true, false, not, ◌&&◌, ◌||◌, Option, none, some, List, [], ◌∷◌, arith, if◌then◌else◌, any, find,
  update_first, inl, inr, ◌⊎◌,
}
use open_data_fusion.Prelude.Message.{one_line}
use open_data_fusion.Prelude.Result.{Result, ok, err, guard, >>=-eq-ok, guard-eq-ok}
use open_data_fusion.Edge.Queue.{
  Row, Queue, QueuedBatch, Archive, sending, sent, failed, enqueue, claim, checkpoint, lease,
  delivered, postponed, is_leased, mark_sent, release, has_key,
}
use open_data_fusion.Edge.Queue.Rows.{find_row}
use open_data_fusion.Edge.Queue.Keyed.{IsKeyed}
use open_data_fusion.Edge.Queue.Claims.{claim_taken, enqueue_lem}
use open_data_fusion.Edge.Runner.{
  Batch, Connector, Runner, Retry, Failure, lift, is_checkpoint, bundle_of, require, take_batch,
  poll_connector, retry_delay, minimum, maximum, or_zero, settle, drain_one,
}

lift-ok : {A : Type 0} (r : Result _ A) {a : A} → lift r ≡ ok a → r ≡ ok a
lift-ok (ok b) h = ground arith
lift-ok (err e) h = cc

-- A batch that is taken moves the checkpoint, whether it is new or was there.
take_batch-checkpoint :
    (connectors : List Connector) (archive : String → Batch → Archive)
    (run_id : (source checkpoint_after sha256 : String) → String) (actor source id : String)
    (now : ℕ) (batch : Batch) (q next : Queue) (inserted : Bool)
    → take_batch connectors archive run_id actor source id now (some batch) q ≡ ok (next, inserted)
    → (checkpoint source next ≡ some batch.checkpoint_after)
      × (inserted
          ≡ not (has_key (bundle_of connectors archive run_id actor source batch).run_id q.batches))
unfolding take_batch
take_batch-checkpoint connectors archive run_id actor source id now batch q next inserted h =
    let bundle = bundle_of connectors archive run_id actor source batch in
    let (made, lifted, rest) =
      >>=-eq-ok
        (lift (enqueue id source bundle batch.checkpoint_after (archive source batch) now q)) _ h in
    let (fresh, _, moved, _, _) =
      enqueue_lem id source bundle batch.checkpoint_after (archive source batch) now q made.0 made.1
        source (lift-ok _ lifted) in
    let (_, passed, same) =
      >>=-eq-ok
        (guard (made.1 || is_checkpoint batch.checkpoint_after (checkpoint source made.0)) _) _
        rest in
    let there =
      guard-eq-ok (made.1 || is_checkpoint batch.checkpoint_after (checkpoint source made.0)) _
        passed in
    let same_queue : made.0 ≡ next = cc in
    let same_answer : made.1 ≡ inserted = cc in
    (
      subst (λ n. checkpoint source n ≡ some batch.checkpoint_after) same_queue
          (at_end made.1 (checkpoint source made.0) moved there),
      sym same_answer ∙ fresh,
    )
  where
    at_end :
        (new : Bool) (c : Option String)
        → c ≡ (if new && source == source then some batch.checkpoint_after else checkpoint source q)
        → (new || is_checkpoint batch.checkpoint_after c) ≡ true
        → c ≡ some batch.checkpoint_after
    at_end new c moved there = ground (arith, ==_refl source)

require-ok :
    (connectors : List Connector) (archive : String → Batch → Archive)
    (run_id : (source checkpoint_after sha256 : String) → String) (actor source : String)
    (found : Option Connector) {c : Connector}
    → require connectors archive run_id actor source found ≡ ok c
    → found ≡ some c
require-ok connectors archive run_id actor source none h = cc
require-ok connectors archive run_id actor source (some c) h = ground arith

-- A poll that ends has asked the connector of its source, from the checkpoint of the queue: if that
-- gave nothing, the queue is as it was, and otherwise the checkpoint is where the batch stopped.
pub poll_connector-checkpoint :
    (connectors : List Connector) (archive : String → Batch → Archive)
    (run_id : (source checkpoint_after sha256 : String) → String) (actor source id : String)
    (now : ℕ) (runner : Runner) (next : Queue) (inserted : Bool)
    → poll_connector connectors archive run_id actor source id now runner ≡ ok (next, inserted)
    → (c : Connector) × (find (λ c. c.source_system == source) connectors ≡ some c)
      × (((c.poll (checkpoint source runner.queue) ≡ none)
            × (runner.queue ≡ next)
            × (inserted ≡ false))
          ⊎ ((batch : Batch) × (c.poll (checkpoint source runner.queue) ≡ some batch)
              × (checkpoint source next ≡ some batch.checkpoint_after)))
unfolding poll_connector take_batch
poll_connector-checkpoint connectors archive run_id actor source id now runner next inserted h =
    let (_, _, h₁) = >>=-eq-ok (guard (not runner.closed) _) _ h in
    let (c, required, h₂) =
      >>=-eq-ok
        (require connectors archive run_id actor source
          (find (λ c. c.source_system == source) connectors))
        _ h₁ in
    (
      c,
      require-ok connectors archive run_id actor source _ required,
      answered (c.poll (checkpoint source runner.queue)) h₂,
    )
  where
    answered :
        (answer : Option Batch)
        → take_batch connectors archive run_id actor source id now answer runner.queue
          ≡ ok (next, inserted)
        → ((answer ≡ none) × (runner.queue ≡ next) × (inserted ≡ false))
          ⊎ ((batch : Batch) × (answer ≡ some batch)
              × (checkpoint source next ≡ some batch.checkpoint_after))
    answered none e = inl (refl, cc, cc)
    answered (some batch) e = inr (
      batch,
      refl,
      (take_batch-checkpoint connectors archive run_id actor source id now batch runner.queue next
          inserted e).0,
    )

-- The row that a claim leased is the one that an UPDATE of the lease finds.
find_row-leased :
    (id : String) (rows : List Row) {r : Row}
    → find_row id rows ≡ some r
    → r.state ≡ sending
    → any (is_leased id) rows ≡ true
find_row-leased id [] h s = cc
find_row-leased id (q ∷ rows) {r} h s = ground (arith, find_row-leased id rows {r = r})

find_row-settled :
    (id : String) (f : Row → Row) (rows : List Row) {r : Row}
    → ((s : Row) → (f s).id ≡ s.id)
    → find_row id rows ≡ some r
    → r.state ≡ sending
    → find_row id (update_first (is_leased id) f rows) ≡ some (f r)
find_row-settled id f [] k h s = cc
find_row-settled id f (q ∷ rows) {r} k h s =
    ground (arith, k q, find_row-settled id f rows {r = r} k)

-- What the service asks to wait, or nothing.
abbrev pub asked : Option ℕ → ℕ
asked none = 0
asked (some n) = n

-- The wait before a batch is tried again: the base doubled for each try but the first, 30 times at
-- most and up to the maximum, jittered, and at least what the service asks for, up to the maximum.
abbrev pub backoff : (jittered : ℕ → ℕ) → Retry → (attempt : ℕ) → Option ℕ → ℕ
backoff jittered retry attempt retry_after = min retry.max_delay_ms (
    max (jittered (min retry.max_delay_ms (retry.base_delay_ms * 2 ^ min (attempt - 1) 30)))
      (asked retry_after))

-- What the row of a batch is once the service has answered: sent, or failed and due after the wait.
abbrev pub outcome :
    (jittered : ℕ → ℕ) → Retry → (later : ℕ) → QueuedBatch → Option Failure → Row → Row
outcome jittered retry later batch none r = record r {
  state = sent;
  lease_expires_at = none;
  sent_at = some later;
}
outcome jittered retry later batch (some failure) r = record r {
  state = failed;
  lease_expires_at = none;
  available_at = later + backoff jittered retry batch.attempt_count failure.retry_after_ms;
  last_error = some (one_line 2000 failure.message);
}

minimum-min : (a b : ℕ) → minimum a b ≡ min a b
minimum-min a b = ground arith

maximum-max : (a b : ℕ) → maximum a b ≡ max a b
maximum-max a b = ground arith

or_zero-asked : (o : Option ℕ) → or_zero o ≡ asked o
or_zero-asked none = refl
or_zero-asked (some n) = refl

retry_delay-backoff :
    (retry : Retry) (jittered : ℕ → ℕ) (attempt : ℕ) (retry_after : Option ℕ)
    → retry_delay retry jittered attempt retry_after ≡ backoff jittered retry attempt retry_after
unfolding retry_delay
retry_delay-backoff retry jittered attempt retry_after =
    minimum-min _ _
    ∙ ap (λ n. min retry.max_delay_ms n)
        (maximum-max _ _
          ∙ ap (λ n. max n (or_zero retry_after))
              (ap jittered (
                minimum-min _ _
                ∙ ap (λ n. min retry.max_delay_ms (retry.base_delay_ms * 2 ^ n))
                    (minimum-min (attempt - 1) 30)))
          ∙ ap
              (λ n.
                max
                  (jittered
                    (min retry.max_delay_ms (retry.base_delay_ms * 2 ^ min (attempt - 1) 30)))
                  n)
              (or_zero-asked retry_after))

settle-outcome :
    (deliver : QueuedBatch → Option Failure) (jittered : ℕ → ℕ) (retry : Retry) (lease_ms later : ℕ)
    (batch : QueuedBatch) (answer : Option Failure) (q : Queue) {r : Row}
    → find_row batch.id q.batches ≡ some r
    → r.state ≡ sending
    → (next : Queue) × (settle deliver jittered retry lease_ms later batch answer q ≡ ok next)
      × (find_row batch.id next.batches ≡ some (outcome jittered retry later batch answer r))
unfolding settle mark_sent release
settle-outcome deliver jittered retry lease_ms later batch none q {r} f s = (
  record q { batches = update_first (is_leased batch.id) (delivered later) q.batches },
  rw (find_row-leased batch.id q.batches f s) refl,
  find_row-settled batch.id (delivered later) q.batches (λ _. refl) f s,
)
settle-outcome deliver jittered retry lease_ms later batch (some failure) q {r} f s =
    let delay = retry_delay retry jittered batch.attempt_count failure.retry_after_ms in
    let row =
      find_row-settled batch.id (postponed failure.message (later + delay)) q.batches (λ _. refl) f
        s in
    (
      record q {
        batches =
            update_first (is_leased batch.id) (postponed failure.message (later + delay)) q.batches;
      },
      rw (find_row-leased batch.id q.batches f s) refl,
      row
          ∙ ap (λ n. some (postponed failure.message (later + n) r))
              (retry_delay-backoff retry jittered batch.attempt_count failure.retry_after_ms),
    )

-- A turn of an open runner that claims a batch does not throw, if the ids and keys of the queue are
-- distinct. If the service took the batch, its row is sent, at the time of the answer and with no
-- lease. Otherwise it is failed, with no lease, the message on one line, and due after the answer by
-- the base delay doubled for each try but the first, 30 times at most and up to the maximum, jittered,
-- raised to what the service asks for and cut at the maximum. Nothing else of the row changes.
pub drain_one-outcome :
    (deliver : QueuedBatch → Option Failure) (jittered : ℕ → ℕ) (retry : Retry)
    (lease_ms now later : ℕ) (q claimed : Queue) (batch : QueuedBatch)
    → IsKeyed q
    → claim lease_ms now q ≡ (claimed, some batch)
    → (next : Queue) × (r : Row) × (drain_one deliver jittered retry lease_ms now later
          (record { closed = false; queue = q })
        ≡ ok (next, true))
      × (find_row batch.id claimed.batches ≡ some r)
      × (find_row batch.id next.batches
          ≡ some (outcome jittered retry later batch (deliver batch) r))
unfolding drain_one
drain_one-outcome deliver jittered retry lease_ms now later q claimed batch v h =
    let (r, _, _, _, _, leased) = claim_taken lease_ms now q claimed v h in
    let (next, settled, after) =
      settle-outcome deliver jittered retry lease_ms later batch (deliver batch) claimed leased
        refl in
    (next, lease (now + lease_ms) r, rw (h, settled) refl, leased, after)
