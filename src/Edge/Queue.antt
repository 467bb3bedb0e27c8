-- ===== src/Edge/Queue.antt =====
-- The durable queue: the class `EdgeQueue` of apps/edge-agent/src/queue.ts. The two tables are lists
-- of rows, a method is given the time of its `Date.now()` in milliseconds, and a column that holds
-- the same instant as ISO text is that number. `JSON.parse` reads back what `JSON.stringify` wrote.
-- The message of a release is cut by characters, where the source counts UTF-16 units.
pub mod Rows
pub mod Keyed
pub mod Delivery
pub mod Claims
use Prim.Native.String.{count as chars, compare as compare_text}
use Prim.Native.Nat.{Ordering}
use open_data_fusion.Prelude.{
  String, ◌==◌, ℕ, ◌+◌, Bool, true, false, not, ◌&&◌, ◌||◌, Option, none, some, List, [], ◌∷◌, ◌++◌,
  map, if◌then◌else◌, any, count, update_first, nat_eq, ltb, leb,
}
use open_data_fusion.Prelude.Json.{Object}
use open_data_fusion.Prelude.Maps.{lookup, insert}
use open_data_fusion.Prelude.Message.{one_line}
use open_data_fusion.Prelude.Result.{Result, ok, err, ◌>>=◌, ◌>>◌, guard}

pub data State : Type 0 where
  pending sending sent failed : State

pub State-discrete : Discrete State
State-discrete = hlevel

-- `source`, and the five lists as one value.
pub record Bundle : Type 0 where
  pub system : String
  pub run_id : String
  pub actor : String
  pub content : Object

pub record Archive : Type 0 where
  pub path : String
  pub sha256 : String

pub record Row : Type 0 where
  pub id : String
  pub source_system : String
  pub idempotency_key : String
  pub bundle : Bundle
  pub archive : Archive
  pub checkpoint_after : String
  pub state : State
  pub attempt_count : ℕ
  pub available_at : ℕ
  pub lease_expires_at : Option ℕ
  pub last_error : Option String
  pub created_at : ℕ
  pub sent_at : Option ℕ

pub record Queue : Type 0 where
  pub checkpoints : List (String × String)
  pub batches : List Row

-- What a caller gets of a row.
pub record QueuedBatch : Type 0 where
  pub id : String
  pub source_system : String
  pub idempotency_key : String
  pub bundle : Bundle
  pub archive : Archive
  pub checkpoint_after : String
  pub attempt_count : ℕ

pub data Error : Type 0 where
  not_leased : String → Error
  constraint : Error

abbrev pub is_sent : State → Bool
is_sent sent = true
is_sent _ = false

abbrev pub is_sending : State → Bool
is_sending sending = true
is_sending _ = false

-- state IN ('pending', 'failed')
abbrev pub is_waiting : State → Bool
is_waiting pending = true
is_waiting failed = true
is_waiting _ = false

abbrev pub empty_queue : Queue
empty_queue = record { checkpoints = []; batches = [] }

abbrev pub checkpoint : String → Queue → Option String
checkpoint source q = lookup source q.checkpoints

abbrev pub has_key : String → List Row → Bool
has_key key rows = any (λ r. r.idempotency_key == key) rows

abbrev pub new_row : (id source : String) → Bundle → (checkpoint_after : String) → Archive → ℕ → Row
new_row id source bundle checkpoint_after archive now = record {
  id = id;
  source_system = source;
  idempotency_key = bundle.run_id;
  bundle = bundle;
  archive = archive;
  checkpoint_after = checkpoint_after;
  state = pending;
  attempt_count = 0;
  available_at = now;
  lease_expires_at = none;
  last_error = none;
  created_at = now;
  sent_at = none;
}

-- In one transaction, which an error rolls back. The CHECK is looked at first; ON CONFLICT then skips a
-- key that is there before the primary key is looked at.
unfoldable pub enqueue :
    (id source : String)
    → Bundle
    → (checkpoint_after : String) → Archive
    → (now : ℕ) → Queue
    → Result Error (Queue × Bool)
enqueue id source bundle checkpoint_after archive now q = do
  guard (nat_eq (chars archive.sha256) 64) constraint
  if has_key bundle.run_id q.batches then ok (q, false) else do
    guard (not (any (λ r. r.id == id) q.batches)) constraint
    ok (
      record {
        checkpoints = insert source checkpoint_after q.checkpoints;
        batches = q.batches ++ new_row id source bundle checkpoint_after archive now ∷ [];
      },
      true,
    )

abbrev pub has_expired : ℕ → Option ℕ → Bool
has_expired now none = false
has_expired now (some t) = ltb t now

-- The first UPDATE of `claim`: a lease that ran out is given up.
abbrev pub expire : ℕ → Row → Row
expire now r =
    if is_sending r.state && has_expired now r.lease_expires_at
    then record r { state = failed; lease_expires_at = none; available_at = now }
    else r

abbrev pub is_ready : ℕ → Row → Bool
is_ready now r = is_waiting r.state && leb r.available_at now

abbrev text_lt : String → String → Bool
text_lt a b = elim (compare_text a b) [ Ordering.lt ↦ true | _ ↦ false ]

-- ORDER BY available_at, created_at, id
abbrev pub precedes : Row → Row → Bool
precedes a b =
    ltb a.available_at b.available_at
    || nat_eq a.available_at b.available_at
      && (ltb a.created_at b.created_at || nat_eq a.created_at b.created_at && text_lt a.id b.id)

abbrev pub earlier : Row → Option Row → Row
earlier a none = a
earlier a (some b) = if precedes b a then b else a

-- LIMIT 1
unfoldable pub first_ready : ℕ → List Row → Option Row
first_ready now [] = none
first_ready now (r ∷ rows) =
    let rest = first_ready now rows in if is_ready now r then some (earlier r rest) else rest

abbrev pub lease : ℕ → Row → Row
lease until r = record r {
  state = sending;
  attempt_count = r.attempt_count + 1;
  lease_expires_at = some until;
  last_error = none;
}

abbrev pub to_batch : Row → QueuedBatch
to_batch r = record {
  id = r.id;
  source_system = r.source_system;
  idempotency_key = r.idempotency_key;
  bundle = r.bundle;
  archive = r.archive;
  checkpoint_after = r.checkpoint_after;
  attempt_count = r.attempt_count + 1;
}

abbrev take_row : (until : ℕ) → Option Row → Queue → Queue × Option QueuedBatch
take_row until none q = (q, none)
take_row until (some r) q = (
  record q { batches = update_first (λ s. s.id == r.id) (lease until) q.batches },
  some (to_batch r),
)

unfoldable pub claim : (lease_ms now : ℕ) → Queue → Queue × Option QueuedBatch
unfolding first_ready
claim lease_ms now q =
    let rows = map (expire now) q.batches in
    take_row (now + lease_ms) (first_ready now rows) (record q { batches = rows })

abbrev pub is_leased : String → Row → Bool
is_leased id r = r.id == id && is_sending r.state

-- An UPDATE … WHERE id = ? AND state = 'sending' that has to change one row.
abbrev pub update_leased : String → (Row → Row) → Queue → Result Error Queue
update_leased id f q =
    if any (is_leased id) q.batches
    then ok (record q { batches = update_first (is_leased id) f q.batches })
    else err (not_leased id)

abbrev pub delivered : ℕ → Row → Row
delivered now r = record r { state = sent; lease_expires_at = none; sent_at = some now }

abbrev pub postponed : String → (until : ℕ) → Row → Row
postponed error until r = record r {
  state = failed;
  lease_expires_at = none;
  available_at = until;
  last_error = some (one_line 2000 error);
}

unfoldable pub mark_sent : String → (now : ℕ) → Queue → Result Error Queue
mark_sent id now q = update_leased id (delivered now) q

unfoldable pub release : String → (error : String) → (delay_ms now : ℕ) → Queue → Result Error Queue
release id error delay_ms now q = update_leased id (postponed error (now + delay_ms)) q

abbrev pub pending_count : Queue → ℕ
pending_count q = count (λ r. not (is_sent r.state)) q.batches
