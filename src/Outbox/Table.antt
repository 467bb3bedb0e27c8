-- ===== src/Outbox/Table.antt =====
-- The table of events, as the class `PostgresOutboxRepository` of apps/outbox-worker/src/postgres.ts
-- reads and writes it. Each statement runs alone, at the time `now` in milliseconds. The id of an
-- event is its number, in the place of the number's text.
pub mod Ids
pub mod Order
use Prim.Native.String.{◌++◌ as ◌concat◌}
use open_data_fusion.Prelude.{
  String, ◌==◌, ℕ, ◌+◌, ◌-◌, Bool, true, false, not, ◌&&◌, ◌||◌, Option, none, some, List, [], ◌∷◌,
  ◌++◌, map, if◌then◌else◌, any, count, filter, take, nat_eq, ltb, leb, is_some,
}
use open_data_fusion.Prelude.Json.{Object}
use open_data_fusion.Prelude.Message.{first_chars, squeeze, trim}
use open_data_fusion.Prelude.Result.{Result, ok, err, ◌>>=◌, ◌>>◌, guard}

-- A `timestamptz`.
pub data Instant : Type 0 where
  at : ℕ → Instant
  infinity : Instant

pub record Row : Type 0 where
  pub event_id : ℕ
  pub aggregate_type : String
  pub aggregate_id : String
  pub event_type : String
  pub event_version : ℕ
  pub topic : String
  pub message_key : String
  pub payload : Object
  pub headers : Object
  pub deduplication_key : String
  pub correlation_id : String
  pub occurred_at : ℕ
  pub available_at : Instant
  pub published_at : Option ℕ
  pub attempt_count : ℕ
  -- `lease_owner` and `lease_expires_at`, of which the table has both or none
  pub held : Option (String × ℕ)
  pub last_error : Option String

-- What a claim gives of a row.
pub record Event : Type 0 where
  pub event_id : ℕ
  pub aggregate_type : String
  pub aggregate_id : String
  pub event_type : String
  pub event_version : ℕ
  pub topic : String
  pub message_key : String
  pub payload : Object
  pub headers : Object
  pub deduplication_key : String
  pub correlation_id : String
  pub occurred_at : ℕ
  pub attempt_count : ℕ

pub data Error : Type 0 where
  not_owned : (event_id : ℕ) → Error
  limit_out_of_range no_reason : Error

abbrev pub map_row : Row → Event
map_row r = record {
  event_id = r.event_id;
  aggregate_type = r.aggregate_type;
  aggregate_id = r.aggregate_id;
  event_type = r.event_type;
  event_version = r.event_version;
  topic = r.topic;
  message_key = r.message_key;
  payload = r.payload;
  headers = r.headers;
  deduplication_key = r.deduplication_key;
  correlation_id = r.correlation_id;
  occurred_at = r.occurred_at;
  attempt_count = r.attempt_count;
}

abbrev pub instant_lt : Instant → Instant → Bool
instant_lt (at a) (at b) = ltb a b
instant_lt (at a) infinity = true
instant_lt infinity b = false

abbrev pub is_infinite : Instant → Bool
is_infinite infinity = true
is_infinite (at _) = false

abbrev pub is_published : Row → Bool
is_published r = is_some r.published_at

-- `(a.occurred_at, a.event_id) < (b.occurred_at, b.event_id)`
abbrev pub occurs_before : Row → Row → Bool
occurs_before a b =
    ltb a.occurred_at b.occurred_at
    || nat_eq a.occurred_at b.occurred_at && ltb a.event_id b.event_id

abbrev pub same_aggregate : Row → Row → Bool
same_aggregate a b = a.aggregate_type == b.aggregate_type && a.aggregate_id == b.aggregate_id

-- The row keeps `b` back: it is older, of the same aggregate and not published.
abbrev pub blocks : Row → Row → Bool
blocks b p = same_aggregate p b && not (is_published p) && occurs_before p b

abbrev pub lease_is_over : ℕ → Option (String × ℕ) → Bool
lease_is_over now none = true
lease_is_over now (some (_, expires)) = ltb expires now

-- The WHERE of the candidates.
abbrev pub is_candidate : ℕ → List Row → Row → Bool
is_candidate now rows r =
    not (is_published r)
    && not (instant_lt (at now) r.available_at)
    && lease_is_over now r.held
    && not (any (blocks r) rows)

-- ORDER BY available_at, occurred_at, event_id
abbrev pub by_availability : Row → Row → Bool
by_availability a b =
    instant_lt a.available_at b.available_at
    || not (instant_lt b.available_at a.available_at) && occurs_before a b

abbrev pub by_id : Row → Row → Bool
by_id a b = ltb a.event_id b.event_id

abbrev pub insert_by : (Row → Row → Bool) → Row → List Row → List Row
insert_by before r [] = r ∷ []
insert_by before r (s ∷ rows) =
    let rest = insert_by before r rows in if before s r then s ∷ rest else r ∷ s ∷ rows

abbrev pub sort_by : (Row → Row → Bool) → List Row → List Row
sort_by before [] = []
sort_by before (r ∷ rows) = insert_by before r (sort_by before rows)

-- UPDATE … SET f WHERE p
abbrev pub update_where : (Row → Bool) → (Row → Row) → List Row → List Row
update_where p f rows = map (λ r. if p r then f r else r) rows

abbrev pub has_id : List Row → Row → Bool
has_id rows r = any (λ s. nat_eq s.event_id r.event_id) rows

abbrev pub candidates : (batch_size now : ℕ) → List Row → List Row
candidates batch_size now rows =
    take batch_size (sort_by by_availability (filter (is_candidate now rows) rows))

abbrev pub hold : String → (expires : ℕ) → Row → Row
hold worker expires r = record r {
  held = some (worker, expires);
  attempt_count = r.attempt_count + 1;
  last_error = none;
}

unfoldable pub claim :
    (batch_size : ℕ) (worker : String) (lease_ms now : ℕ) → List Row → List Row × List Event
claim batch_size worker lease_ms now rows =
    let chosen = candidates batch_size now rows in
    let next = update_where (has_id chosen) (hold worker (now + lease_ms)) rows in
    (next, map map_row (sort_by by_id (filter (has_id chosen) next)))

abbrev owned_by : String → Option (String × ℕ) → Bool
owned_by worker none = false
owned_by worker (some (owner, _)) = owner == worker

-- WHERE event_id = $1 AND lease_owner = $2 AND published_at IS NULL
abbrev pub is_owned : ℕ → String → Row → Bool
is_owned id worker r = nat_eq r.event_id id && owned_by worker r.held && not (is_published r)

-- An UPDATE of the worker's own lease that has to change one row.
abbrev pub update_owned : ℕ → String → (Row → Row) → List Row → Result Error (List Row)
update_owned id worker f rows = do
  guard (nat_eq (count (is_owned id worker) rows) 1) (not_owned id)
  ok (update_where (is_owned id worker) f rows)

abbrev pub published : ℕ → Row → Row
published now r = record r { published_at = some now; held = none; last_error = none }

unfoldable pub mark_published : ℕ → String → (now : ℕ) → List Row → Result Error (List Row)
mark_published id worker now rows = update_owned id worker (published now) rows

abbrev pub released : String → Instant → Row → Row
released error available r = record r {
  held = none;
  available_at = available;
  last_error = some error;
}

unfoldable pub release :
    ℕ → String → (error : String) → (delay_ms now : ℕ) → List Row → Result Error (List Row)
release id worker error delay_ms now rows =
    update_owned id worker (released error (at (now + delay_ms))) rows

unfoldable pub dead_letter : ℕ → String → (error : String) → List Row → Result Error (List Row)
dead_letter id worker error rows =
    update_owned id worker (released (first_chars 2000 ("dead-letter: " concat error)) infinity)
      rows

-- WHERE published_at IS NULL AND available_at = 'infinity'
abbrev pub is_dead : Row → Bool
is_dead r = not (is_published r) && is_infinite r.available_at

abbrev pub or_empty : Option String → String
or_empty none = ""
or_empty (some text) = text

abbrev pub requeued : String → ℕ → Row → Row
requeued reason now r = record r {
  available_at = at now;
  attempt_count = 0;
  held = none;
  last_error = some (
      first_chars 2000
        ("requeued: " concat (reason concat ("; previous: " concat or_empty r.last_error))));
}

unfoldable pub requeue_dead_letter :
    ℕ → (reason : String) → (now : ℕ) → List Row → Result Error (List Row × Bool)
requeue_dead_letter id reason now rows = do
  let normalized = first_chars 500 (trim (squeeze false reason))
  guard (not (normalized == "")) no_reason
  ok (
    update_where (λ r. nat_eq r.event_id id && is_dead r) (requeued normalized now) rows,
    nat_eq (count (λ r. nat_eq r.event_id id && is_dead r) rows) 1,
  )

unfoldable pub list_dead_letters : (limit : ℕ) → List Row → Result Error (List Row)
list_dead_letters limit rows = do
  guard (leb 1 limit && leb limit 500) limit_out_of_range
  ok (take limit (sort_by occurs_before (filter is_dead rows)))
