-- ===== src/Tests/Events.antt =====
-- Three events of two aggregates, and a turn in which one is refused.
use open_data_fusion.Prelude.{
  String, String_discrete, ℕ, ◌≡◌, ◌+◌, ◌≤◌, refl, Option, none, some, List, [], ◌∷◌, count,
  if◌then◌else◌, nat_eq,
}
use open_data_fusion.Prelude.Message.{one_line}
use open_data_fusion.Prelude.Result.{ok}
use open_data_fusion.Outbox.Table.{
  Row, Event, at, claim, mark_published, release, is_published, hold, published, released,
}
use open_data_fusion.Outbox.Table.Order.{
  Call, claim_call, mark_published_call, release_call, requeue_call, dead_letter_call, IsOrdered,
  run_all, run_all-IsOrdered,
}
use open_data_fusion.Outbox.Pump.{Options, PumpResult, run_once}
use open_data_fusion.Outbox.Pump.Counts.{run_once-counts}

abbrev row : ℕ → String → Row
row id aggregate = record {
  event_id = id;
  aggregate_type = "workspace";
  aggregate_id = aggregate;
  event_type = "workspace.saved";
  event_version = 1;
  topic = "workspaces";
  message_key = aggregate;
  payload = [];
  headers = [];
  deduplication_key = aggregate;
  correlation_id = "c";
  occurred_at = id;
  available_at = at id;
  published_at = none;
  attempt_count = 0;
  held = none;
  last_error = none;
}

abbrev table : List Row
table = row 1 "a" ∷ row 2 "b" ∷ row 3 "a" ∷ []

table-IsOrdered : IsOrdered table
table-IsOrdered = record {
  ids = (refl, (refl, (refl, tt)));
  order = ((λ e. cc), ((λ e. cc), ((λ e. cc), tt)));
}

abbrev calls : List Call
calls =
    claim_call 5 "w1" 1000 10
    ∷ claim_call 5 "w2" 1000 20
    ∷ mark_published_call 1 "w1" 30
    ∷ claim_call 5 "w2" 1000 40
    ∷ dead_letter_call 2 "w1" "refused"
    ∷ requeue_call 2 "fixed" 50
    ∷ release_call 3 "w2" "offline" 100 60
    ∷ []

run_all-IsOrdered_example : IsOrdered (run_all calls table)
run_all-IsOrdered_example = run_all-IsOrdered calls table table-IsOrdered

abbrev options : Options
options = record {
  worker_id = "w1";
  batch_size = 5;
  lease_milliseconds = 1000;
  maximum_retry_delay_milliseconds = 300000;
  maximum_delivery_attempts = 12;
}

-- The publisher refuses the second event.
abbrev publish : Event → Option String
publish e = if nat_eq e.event_id 2 then some "offline" else none

abbrev clock : Event → ℕ
clock e = 20

abbrev after : List Row
after =
    published 20 (hold "w1" 1010 (row 1 "a"))
    ∷ released "offline" (at 2020) (hold "w1" 1010 (row 2 "b"))
    ∷ row 3 "a"
    ∷ []

abbrev counted : PumpResult
counted = record { claimed = 2; published = 1; failed = 1; dead_lettered = 0 }

turn : run_once publish clock options 10 table ≡ ok (after, counted)
unfolding run_once claim mark_published release one_line String_discrete
turn = refl

run_once-counts_example :
    (1 + 1 ≡ counted.claimed)
    × (counted.dead_lettered ≤ counted.failed)
    × (count is_published after ≡ count is_published table + 1)
run_once-counts_example = run_once-counts publish clock options 10 table after counted turn
