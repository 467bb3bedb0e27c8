-- ===== src/Outbox/Table/Order.antt =====
-- The order of publication, over any sequence of calls by any workers.
use open_data_fusion.Prelude.{
  String, ◌==◌, ℕ, ◌+◌, ◌≡◌, refl, ◌∙◌, Bool, true, false, not, ◌&&◌, ◌||◌, List, [], ◌∷◌, map,
  arith, if◌then◌else◌, any, count, All, All-map, Bool-cases, inl, inr, nat_eq, is_some,
}
use open_data_fusion.Prelude.Message.{first_chars, squeeze, trim}
use open_data_fusion.Prelude.Result.{Result, ok, err, ◌>>◌, guard}
use open_data_fusion.Outbox.Table.{
  Row, Error, not_owned, no_reason, Instant, at, infinity, is_published, blocks, update_where,
  has_id, candidates, hold, claim, is_owned, update_owned, published, released, mark_published,
  release, dead_letter, requeued, requeue_dead_letter, is_dead,
}
use open_data_fusion.Outbox.Table.Ids.{IdsDistinct, candidates_pass}

-- A call of a worker or of an operator.
pub data Call : Type 0 where
  claim_call : (batch_size : ℕ) (worker : String) (lease_ms now : ℕ) → Call
  mark_published_call : ℕ → String → (now : ℕ) → Call
  release_call : ℕ → String → (error : String) → (delay_ms now : ℕ) → Call
  dead_letter_call : ℕ → String → (error : String) → Call
  requeue_call : ℕ → (reason : String) → (now : ℕ) → Call

abbrev keep : {A : Type 0} → (A → List Row) → List Row → Result Error A → List Row
keep f rows (ok a) = f a
keep f rows (err e) = rows

-- A statement that throws has changed nothing.
unfoldable pub run : Call → List Row → List Row
run (claim_call n worker lease_ms now) rows = (claim n worker lease_ms now rows).0
run (mark_published_call id worker now) rows =
    keep (λ r. r) rows (mark_published id worker now rows)
run (release_call id worker error delay_ms now) rows =
    keep (λ r. r) rows (release id worker error delay_ms now rows)
run (dead_letter_call id worker error) rows = keep (λ r. r) rows (dead_letter id worker error rows)
run (requeue_call id reason now) rows =
    keep (λ r. r.0) rows (requeue_dead_letter id reason now rows)

unfoldable pub run_all : List Call → List Row → List Row
unfolding run
run_all [] rows = rows
run_all (c ∷ calls) rows = run_all calls (run c rows)

-- Someone holds the row, or it was published.
abbrev pub is_started : Row → Bool
is_started r = is_published r || is_some r.held

-- An event that was started is not kept back by one that is not published.
abbrev pub Ordered : List Row → List Row → Type 0
Ordered rows rs = All (λ r. is_started r ≡ true → any (blocks r) rows ≡ false) rs

pub record IsOrdered (rows : List Row) : Type 0 where
  pub ids : IdsDistinct rows
  pub order : Ordered rows rows

-- What an UPDATE keeps: the event, and that it is published.
pub record Keeps (f : Row → Row) : Type 0 where
  pub id : (r : Row) → (f r).event_id ≡ r.event_id
  pub kind : (r : Row) → (f r).aggregate_type ≡ r.aggregate_type
  pub aggregate : (r : Row) → (f r).aggregate_id ≡ r.aggregate_id
  pub time : (r : Row) → (f r).occurred_at ≡ r.occurred_at
  pub done : (r : Row) → is_published r ≡ true → is_published (f r) ≡ true

module _ (f : Row → Row) (k : Keeps f) where
  not_blocked :
      (r : Row) (rows : List Row)
      → any (blocks r) rows ≡ false
      → any (blocks (f r)) (map f rows) ≡ false
  not_blocked r [] h = refl
  not_blocked r (p ∷ rows) h = ground (
    arith,
    k.id r,
    k.kind r,
    k.aggregate r,
    k.time r,
    k.id p,
    k.kind p,
    k.aggregate p,
    k.time p,
    k.done p,
    not_blocked r rows,
  )

  has_id-map : (rows : List Row) (r : Row) → has_id (map f rows) (f r) ≡ has_id rows r
  has_id-map [] r = refl
  has_id-map (p ∷ rows) r = ground (arith, k.id r, k.id p, has_id-map rows r)

  IdsDistinct-map : (rows : List Row) → IdsDistinct rows → IdsDistinct (map f rows)
  IdsDistinct-map [] d = tt
  IdsDistinct-map (r ∷ rows) (new, d) = (has_id-map rows r ∙ new, IdsDistinct-map rows d)

  -- If what `f` starts was not kept back.
  Ordered-map :
      (rows rs : List Row)
      → Ordered rows rs
      → All (λ r. is_started (f r) ≡ true → is_started r ≡ false → any (blocks r) rows ≡ false) rs
      → Ordered (map f rows) (map f rs)
  Ordered-map rows [] o h = tt
  Ordered-map rows (r ∷ rs) (o, os) (h, hs) = (
    λ started.
        not_blocked r rows (elim (Bool-cases (is_started r)) [ inl e ↦ o e | inr e ↦ h started e ]),
    Ordered-map rows rs os hs,
  )

Keeps-where : (p : Row → Bool) (f : Row → Row) → Keeps f → Keeps (λ r. if p r then f r else r)
Keeps-where p f k = record {
  id = λ r. ground (arith, k.id r);
  kind = λ r. ground (arith, k.kind r);
  aggregate = λ r. ground (arith, k.aggregate r);
  time = λ r. ground (arith, k.time r);
  done = λ r h. ground (arith, k.done r);
}

IsOrdered-update_where :
    (p : Row → Bool) (f : Row → Row) (rows : List Row)
    → Keeps f
    → IsOrdered rows
    → All
        (λ r.
          p r ≡ true → is_started (f r) ≡ true → is_started r ≡ false → any (blocks r) rows ≡ false)
        rows
    → IsOrdered (update_where p f rows)
IsOrdered-update_where p f rows k o h = record {
  ids = IdsDistinct-map _ (Keeps-where p f k) rows o.ids;
  order = Ordered-map _ (Keeps-where p f k) rows rows o.order (
      All-map _ _
        (λ r started e n. elim (Bool-cases (p r)) [
          | inl t ↦ started t (ground arith) n
          | inr t ↦ ground arith
        ])
        rows h);
}

hold-Keeps : (worker : String) (expires : ℕ) → Keeps (hold worker expires)
hold-Keeps worker expires = record {
  id = λ r. refl;
  kind = λ r. refl;
  aggregate = λ r. refl;
  time = λ r. refl;
  done = λ r h. h;
}

published-Keeps : (now : ℕ) → Keeps (published now)
published-Keeps now = record {
  id = λ r. refl;
  kind = λ r. refl;
  aggregate = λ r. refl;
  time = λ r. refl;
  done = λ r h. refl;
}

released-Keeps : (error : String) (available : Instant) → Keeps (released error available)
released-Keeps error available = record {
  id = λ r. refl;
  kind = λ r. refl;
  aggregate = λ r. refl;
  time = λ r. refl;
  done = λ r h. h;
}

requeued-Keeps : (reason : String) (now : ℕ) → Keeps (requeued reason now)
requeued-Keeps reason now = record {
  id = λ r. refl;
  kind = λ r. refl;
  aggregate = λ r. refl;
  time = λ r. refl;
  done = λ r h. h;
}

-- Rows that were not started and are not started by an UPDATE that only takes started ones.
each : {P : Row → Type 0} → ((r : Row) → P r) → (rows : List Row) → All P rows
each h [] = tt
each h (r ∷ rows) = (h r, each h rows)

keep_guard :
    {A : Type 0} (P : List Row → Type 0) (f : A → List Row) (b : Bool) (e : Error) (rows : List Row)
    (a : A)
    → P rows
    → P (f a)
    → P (keep f rows (guard b e >> ok a))
keep_guard P f true e rows a before after = after
keep_guard P f false e rows a before after = before

update_owned-IsOrdered :
    (id : ℕ) (worker : String) (f : Row → Row) (rows : List Row)
    → Keeps f
    → IsOrdered rows
    → IsOrdered (keep (λ r. r) rows (update_owned id worker f rows))
update_owned-IsOrdered id worker f rows k o =
    keep_guard IsOrdered (λ r. r) (nat_eq (count (is_owned id worker) rows) 1) (not_owned id) rows
      (update_where (is_owned id worker) f rows) o
      (IsOrdered-update_where (is_owned id worker) f rows k o
        (each (λ r owned e n. ground arith) rows))

run-IsOrdered : (c : Call) (rows : List Row) → IsOrdered rows → IsOrdered (run c rows)
unfolding run claim mark_published release dead_letter requeue_dead_letter
run-IsOrdered (claim_call n worker lease_ms now) rows o =
    IsOrdered-update_where (has_id (candidates n now rows)) (hold worker (now + lease_ms)) rows
      (hold-Keeps worker (now + lease_ms)) o
      (All-map _ _ (λ r passes chosen e m. ground (arith, passes chosen)) rows
        (candidates_pass n now rows o.ids))
run-IsOrdered (mark_published_call id worker now) rows o =
    update_owned-IsOrdered id worker (published now) rows (published-Keeps now) o
run-IsOrdered (release_call id worker error delay_ms now) rows o =
    update_owned-IsOrdered id worker (released error (at (now + delay_ms))) rows
      (released-Keeps error (at (now + delay_ms))) o
run-IsOrdered (dead_letter_call id worker error) rows o =
    update_owned-IsOrdered id worker _ rows (released-Keeps _ infinity) o
run-IsOrdered (requeue_call id reason now) rows o =
    let normalized = first_chars 500 (trim (squeeze false reason)) in
    let taken = (λ (r : Row). nat_eq r.event_id id && is_dead r) in
    keep_guard IsOrdered (λ (p : List Row × Bool). p.0) (not (normalized == "")) no_reason rows
      (update_where taken (requeued normalized now) rows, nat_eq (count taken rows) 1) o
      (IsOrdered-update_where taken (requeued normalized now) rows (requeued-Keeps normalized now) o
        (each (λ r dead e n. ground arith) rows))

-- Whatever the calls of any workers and operators on a table to which no event is added: an
-- event that is held or published has no older event of its aggregate that is not published,
-- if that held before the calls and the ids are distinct.
pub run_all-IsOrdered :
    (calls : List Call) (rows : List Row) → IsOrdered rows → IsOrdered (run_all calls rows)
unfolding run_all
run_all-IsOrdered [] rows o = o
run_all-IsOrdered (c ∷ calls) rows o = run_all-IsOrdered calls (run c rows) (run-IsOrdered c rows o)
