-- ===== src/Outbox/Pump/Counts.antt =====
-- What the counters of a turn say of the table.
use Prim.Native.String.{◌++◌ as ◌concat◌}
use open_data_fusion.Prelude.Message.{one_line, first_chars}
use open_data_fusion.Prelude.{
  String, ℕ, suc, ◌+◌, ◌≤◌, ◌≡◌, refl, Bool, Option, none, some, List, [], ◌∷◌, arith, length,
  count,
}
use open_data_fusion.Prelude.Result.{Result, ok, err, >>=-eq-ok}
use open_data_fusion.Outbox.Table.{
  Row, Event, Error, Instant, is_published, update_where, is_owned, published, released,
  mark_published, release, dead_letter, claim, has_id, hold, candidates, Instant, infinity, at,
}
use open_data_fusion.Outbox.Pump.{
  Options, Progress, PumpResult, fail, settle, attempt, deliver_each, run_once, message_of,
  retry_delay, tally,
}

count_same :
    (q : Row → Bool) (f : Row → Row) (rows : List Row)
    → ((r : Row) → is_published (f r) ≡ is_published r)
    → count is_published (update_where q f rows) ≡ count is_published rows
count_same q f [] h = refl
count_same q f (r ∷ rows) h = ground (arith, h r, count_same q f rows h)

count_published :
    (id : ℕ) (worker : String) (now : ℕ) (rows : List Row)
    → count is_published (update_where (is_owned id worker) (published now) rows)
      ≡ count is_published rows + count (is_owned id worker) rows
count_published id worker now [] = ground arith
count_published id worker now (r ∷ rows) = ground (arith, count_published id worker now rows)

mark_published-count :
    (id : ℕ) (worker : String) (now : ℕ) (rows next : List Row)
    → mark_published id worker now rows ≡ ok next
    → count is_published next ≡ count is_published rows + 1
unfolding mark_published
mark_published-count id worker now rows next h = ground (arith, count_published id worker now rows)

released-count :
    (id : ℕ) (worker error : String) (available : Instant) (rows : List Row)
    → count is_published (update_where (is_owned id worker) (released error available) rows)
      ≡ count is_published rows
released-count id worker error available rows =
    count_same (is_owned id worker) (released error available) rows (λ r. refl)

-- The counters of a turn at its event number `n`, over a table that had `start` published events.
abbrev IsCounted : (start n : ℕ) → Progress → Type 0
IsCounted start n p =
    (p.published + p.failed ≡ n)
    × (p.dead_lettered ≤ p.failed)
    × (count is_published p.rows ≡ start + p.published)

module _ (publish : Event → Option String) (clock : Event → ℕ) (options : Options) (start : ℕ) where
  fail-IsCounted :
      (event : Event) (error : String) (n : ℕ) (p next : Progress)
      → fail publish clock options event error p ≡ ok next
      → IsCounted start n p
      → IsCounted start (suc n) next
  unfolding fail release dead_letter
  fail-IsCounted event error n p next h c = ground (
    arith,
    released-count event.event_id options.worker_id
        (first_chars 2000 ("dead-letter: " concat one_line 2000 error)) infinity p.rows,
    released-count event.event_id options.worker_id (one_line 2000 error)
        (at (clock event + retry_delay event options.maximum_retry_delay_milliseconds)) p.rows,
  )

  settle-IsCounted :
      (event : Event) (n : ℕ) (p next : Progress) (r : Result Error (List Row))
      → ((rows : List Row) → r ≡ ok rows → count is_published rows ≡ count is_published p.rows + 1)
      → settle publish clock options event p r ≡ ok next
      → IsCounted start n p
      → IsCounted start (suc n) next
  unfolding settle
  settle-IsCounted event n p next (ok rows) grows h c = let g = grows rows refl in ground arith
  settle-IsCounted event n p next (err e) grows h c =
      fail-IsCounted event (message_of e) n p next h c

  attempt-IsCounted :
      (event : Event) (answer : Option String) (n : ℕ) (p next : Progress)
      → attempt publish clock options event answer p ≡ ok next
      → IsCounted start n p
      → IsCounted start (suc n) next
  unfolding attempt
  attempt-IsCounted event none n p next h c =
      settle-IsCounted event n p next _
        (λ rows e.
          mark_published-count event.event_id options.worker_id (clock event) p.rows rows e)
        h c
  attempt-IsCounted event (some error) n p next h c = fail-IsCounted event error n p next h c

  deliver_each-IsCounted :
      (events : List Event) (n : ℕ) (p next : Progress)
      → deliver_each publish clock options events p ≡ ok next
      → IsCounted start n p
      → IsCounted start (n + length events) next
  unfolding deliver_each
  deliver_each-IsCounted [] n p next h c = ground arith
  deliver_each-IsCounted (event ∷ events) n p next h c =
      let (after, one, rest) =
        >>=-eq-ok (attempt publish clock options event (publish event) p) _ h in
      let i =
        deliver_each-IsCounted events (suc n) after next rest
          (attempt-IsCounted event (publish event) n p after one c) in
      ground arith

claim-count :
    (n : ℕ) (worker : String) (lease_ms now : ℕ) (rows : List Row)
    → count is_published (claim n worker lease_ms now rows).0 ≡ count is_published rows + 0
unfolding claim
claim-count n worker lease_ms now rows = omega (
  arith,
  count_same (has_id (candidates n now rows)) (hold worker (now + lease_ms)) rows (λ r. refl),
)

-- A turn that ends has either published or failed each event that it claimed, gives up at most those
-- that failed, and has published as many rows of the table as it counts.
pub run_once-counts :
    (publish : Event → Option String) (clock : Event → ℕ) (options : Options) (now : ℕ)
    (rows next : List Row) (r : PumpResult)
    → run_once publish clock options now rows ≡ ok (next, r)
    → (r.published + r.failed ≡ r.claimed)
      × (r.dead_lettered ≤ r.failed)
      × (count is_published next ≡ count is_published rows + r.published)
unfolding run_once
run_once-counts publish clock options now rows next r h =
    let batch = claim options.batch_size options.worker_id options.lease_milliseconds now rows in
    let start : Progress = record {
      rows = batch.0;
      published = 0;
      failed = 0;
      dead_lettered = 0;
    } in
    let (p, delivered, same) = >>=-eq-ok (deliver_each publish clock options batch.1 start) _ h in
    let (sum, given_up, grown) =
      deliver_each-IsCounted publish clock options (count is_published rows) batch.1 0 start p
        delivered
        (
          omega arith,
          omega arith,
          claim-count options.batch_size options.worker_id options.lease_milliseconds now rows,
        ) in
    finish p batch.1 sum given_up grown (cc) (cc)
  where
    finish :
        (p : Progress) (events : List Event)
        → p.published + p.failed ≡ 0 + length events
        → p.dead_lettered ≤ p.failed
        → count is_published p.rows ≡ count is_published rows + p.published
        → p.rows ≡ next
        → tally (length events) p ≡ r
        → (r.published + r.failed ≡ r.claimed)
          × (r.dead_lettered ≤ r.failed)
          × (count is_published next ≡ count is_published rows + r.published)
    finish p events sum given_up grown e e' = ground arith
