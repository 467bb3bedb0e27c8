-- ===== src/Tests/Queues.antt =====
-- Two batches that an edge agent queues, claims and sends.
use Prim.Native.String.{count as chars}
use open_data_fusion.Prelude.{
  ◌⊎◌, String, String_discrete, ◌==◌, ℕ, ◌≡◌, ◌≢◌, refl, true, false, not, ◌&&◌, ◌+◌, ◌≤◌, arith,
  some, List, [], ◌∷◌, any, map, All, if◌then◌else◌,
}
use open_data_fusion.Prelude.Search.{mark}
use open_data_fusion.Edge.Queue.{
  Row, Queue, Bundle, Archive, sent, empty_queue, new_row, to_batch, lease, expire, is_ready,
  has_key, enqueue, claim, mark_sent, checkpoint, pending_count,
}
use open_data_fusion.Edge.Queue.Rows.{find_row}
use open_data_fusion.Edge.Queue.Keyed.{
  Call, enqueue_call, claim_call, mark_sent_call, release_call, run_all, IsKeyed, run_all-IsKeyed,
}
use open_data_fusion.Edge.Queue.Delivery.{run_all-sent}
use open_data_fusion.Edge.Queue.Claims.{
  IsEnqueued, claim_taken, claim_exclusive, claim-none, enqueue_lem,
}

abbrev pub bundle : String → Bundle
bundle run_id = record { system = "plc"; run_id = run_id; actor = "agent"; content = [] }

abbrev pub archive : Archive
archive = record {
  path = "/var/archive";
  sha256 = "0123456789abcdef0123456789abcdef0123456789abcdef0123456789abcdef";
}

abbrev pub row : String → String → ℕ → Row
row id run_id now = new_row id "plc" (bundle run_id) run_id archive now

abbrev pub two : Queue
two = record { checkpoints = ("plc", "r2") ∷ []; batches = row "b1" "r1" 0 ∷ row "b2" "r2" 5 ∷ [] }

pub two-IsKeyed : IsKeyed two
unfolding String_discrete
two-IsKeyed = record { ids_distinct = (refl, (refl, tt)); keys_distinct = (refl, (refl, tt)) }

abbrev work : List Call
work =
    enqueue_call "b1" "plc" (bundle "r1") "r1" archive 0
    ∷ enqueue_call "b2" "plc" (bundle "r2") "r2" archive 5
    ∷ enqueue_call "b3" "plc" (bundle "r2") "r2" archive 6
    ∷ claim_call 1000 10
    ∷ release_call "b1" "offline" 500 20
    ∷ []

run_all-IsKeyed_example : IsKeyed (run_all work empty_queue)
run_all-IsKeyed_example =
    run_all-IsKeyed work empty_queue (record { ids_distinct = tt; keys_distinct = tt })

abbrev sent_row : Row
sent_row = record (row "b1" "r1" 0) { state = sent; attempt_count = 1; sent_at = some 30 }

abbrev one_sent : Queue
one_sent = record two { batches = sent_row ∷ row "b2" "r2" 5 ∷ [] }

run_all-sent_example :
    find_row "b1"
      (run_all (claim_call 1000 40 ∷ release_call "b1" "late" 0 41 ∷ []) one_sent).batches
    ≡ some sent_row
unfolding String_discrete
run_all-sent_example =
    run_all-sent "b1" sent_row (claim_call 1000 40 ∷ release_call "b1" "late" 0 41 ∷ []) one_sent
      (record { ids_distinct = (refl, (refl, tt)); keys_distinct = (refl, (refl, tt)) }) refl refl

abbrev pub taken : Queue
taken = record two { batches = lease 1010 (row "b1" "r1" 0) ∷ row "b2" "r2" 5 ∷ [] }

abbrev both_taken : Queue
both_taken = record two {
  batches = lease 1010 (row "b1" "r1" 0) ∷ lease 520 (row "b2" "r2" 5) ∷ [];
}

pub claims : claim 1000 10 two ≡ (taken, some (to_batch (row "b1" "r1" 0)))
unfolding claim String_discrete
claims = refl

claims_again :
    claim 500 20 (run_all (mark_sent_call "b2" 15 ∷ []) taken)
    ≡ (both_taken, some (to_batch (row "b2" "r2" 5)))
unfolding run_all claim mark_sent String_discrete
claims_again = refl

claim_taken_example :
    (r : Row) × (find_row "b1" (map (expire 10) two.batches) ≡ some r)
    × (is_ready 10 r ≡ true)
    × (to_batch r ≡ to_batch (row "b1" "r1" 0))
    × All
        (λ s. is_ready 10 s ≡ true → r.available_at ≤ s.available_at)
        (map (expire 10) two.batches)
    × (find_row "b1" taken.batches ≡ some (lease (10 + 1000) r))
claim_taken_example = claim_taken 1000 10 two taken two-IsKeyed claims

claim_exclusive_example : (to_batch (row "b2" "r2" 5)).id ≢ (to_batch (row "b1" "r1" 0)).id
unfolding String_discrete
claim_exclusive_example =
    claim_exclusive 1000 10 500 20 (mark_sent_call "b2" 15 ∷ []) two taken both_taken two-IsKeyed
      claims (refl, tt) (omega arith) claims_again

claim-none_example : any (is_ready 3) (map (expire 3) taken.batches) ≡ false
unfolding claim String_discrete
claim-none_example = claim-none 1000 3 taken refl

abbrev one_batch : Queue
one_batch = record { checkpoints = ("plc", "r1") ∷ []; batches = row "b1" "r1" 0 ∷ [] }

enqueue_lem_example :
    (true ≡ not (has_key "r1" empty_queue.batches))
    × (((true ≡ true) × IsEnqueued "b1" "plc" (bundle "r1") "r1" archive 0 empty_queue one_batch)
        ⊎ ((true ≡ false) × (one_batch ≡ empty_queue)))
    × (checkpoint "plc" one_batch
        ≡ (if true && "plc" == "plc" then some "r1" else checkpoint "plc" empty_queue))
    × (pending_count one_batch ≡ pending_count empty_queue + mark true)
    × (chars archive.sha256 ≡ 64)
unfolding enqueue String_discrete
enqueue_lem_example =
    enqueue_lem "b1" "plc" (bundle "r1") "r1" archive 0 empty_queue
      (record { checkpoints = ("plc", "r1") ∷ []; batches = row "b1" "r1" 0 ∷ [] }) true "plc" refl
