-- ===== src/Edge/Queue/Claims.antt =====
-- What a caller of the durable queue gets from `enqueue` and `claim`.
use mathlib.Core.Option
use Prim.Native.String.{count as chars}
use open_data_fusion.Prelude.{
  String, ◌==◌, ℕ, ◌+◌, ◌≤◌, ◌≡◌, ◌≢◌, refl, sym, ap, ◌∙◌, subst, Bool, true, false, not, ◌&&◌,
  Option, none, some, List, [], ◌∷◌, ◌++◌, ◌⊎◌, nat_eq, map, arith, if◌then◌else◌, any,
  update_first, All, All-map, Option-cases, inl, inr,
}
use open_data_fusion.Prelude.Result.{ok, guard->>-eq-ok}
use open_data_fusion.Prelude.Search.{mark, count-append}
use open_data_fusion.Prelude.Maps.{lookup-insert}
use open_data_fusion.Edge.Queue.{
  Row, Queue, Bundle, Archive, QueuedBatch, pending, constraint, is_sent, is_ready, expire,
  first_ready, has_key, new_row, enqueue, lease, to_batch, take_row, claim, checkpoint,
  pending_count,
}
use open_data_fusion.Edge.Queue.Rows.{find_row, find_row-expire, first_ready-find}
use open_data_fusion.Edge.Queue.Keyed.{
  Call, enqueue_call, claim_call, mark_sent_call, release_call, run, run_all, run-IsKeyed,
  run_all-IsKeyed, IsKeyed, IsKeyed-expire, enqueue_cases,
}
use open_data_fusion.Edge.Queue.Delivery.{Leaves, run_all-Leaves}

-- The queue with a batch behind the others that is pending, due at once, and has never been tried.
abbrev pub IsEnqueued :
    (id source : String)
    → Bundle
    → (after : String) → Archive
    → (now : ℕ) → (q next : Queue) → Type 0
IsEnqueued id source bundle after archive now q next =
    next.batches
    ≡ q.batches
      ++ record {
        id = id;
        source_system = source;
        idempotency_key = bundle.run_id;
        bundle = bundle;
        archive = archive;
        checkpoint_after = after;
        state = pending;
        attempt_count = 0;
        available_at = now;
        lease_expires_at = none;
        last_error = none;
        created_at = now;
        sent_at = none;
      }
        ∷ []

-- An enqueue that does not fail is of an archive with a hash of 64 characters. If no batch of its run
-- is in the queue, it adds the batch behind the others, pending, due at once and never tried, with
-- its bundle, its archive and its checkpoint, and answers true; otherwise it changes nothing and
-- answers false. The checkpoint of its source moves if it was inserted, no other checkpoint moves, and
-- the number of pending batches grows by the one that was inserted.
pub enqueue_lem :
    (id source : String) (bundle : Bundle) (after : String) (archive : Archive) (now : ℕ)
    (q next : Queue) (inserted : Bool) (s : String)
    → enqueue id source bundle after archive now q ≡ ok (next, inserted)
    → (inserted ≡ not (has_key bundle.run_id q.batches))
      × (((inserted ≡ true) × IsEnqueued id source bundle after archive now q next)
          ⊎ ((inserted ≡ false) × (next ≡ q)))
      × (checkpoint s next ≡ (if inserted && source == s then some after else checkpoint s q))
      × (pending_count next ≡ pending_count q + mark inserted)
      × (chars archive.sha256 ≡ 64)
unfolding enqueue
enqueue_lem id source bundle after archive now q next inserted s h =
    let (long, _) = guard->>-eq-ok (nat_eq (chars archive.sha256) 64) constraint _ h in
    let hash : chars archive.sha256 ≡ 64 = ground arith in
    elim (enqueue_cases id source bundle after archive now q next h) [
      | inl (same, skipped, present) ↦
          rw (← same, skipped, present) (refl, inr (refl, refl), refl, omega arith, hash)
      | inr (same, fresh, absent, _) ↦
          rw (← same, fresh, absent)
            (
              refl,
              inl (refl, refl),
              lookup-insert source s after q.checkpoints,
              count-append (λ r. not (is_sent r.state)) q.batches
                  (new_row id source bundle after archive now),
              hash,
            )
    ]

first_ready-none :
    (now : ℕ) (rows : List Row) → first_ready now rows ≡ none → any (is_ready now) rows ≡ false
unfolding first_ready
first_ready-none now [] h = refl
first_ready-none now (s ∷ rows) h = ground (arith, first_ready-none now rows)

-- The row that is taken is ready for as long as any that is ready.
first_ready_least :
    (now : ℕ) (rows : List Row) {r : Row}
    → first_ready now rows ≡ some r
    → All (λ s. is_ready now s ≡ true → r.available_at ≤ s.available_at) rows
unfolding first_ready
first_ready_least now [] h = tt
first_ready_least now (s ∷ rows) {r} h = elim (Option-cases (first_ready now rows)) [
  | inl e ↦ (ground arith, not_ready rows (first_ready-none now rows e))
  | inr (b, e) ↦
      let below : r.available_at ≤ b.available_at = ground arith in
      (
        ground arith,
        All-map _ _ (λ t least ready. omega (arith, below, least ready)) rows
            (first_ready_least now rows e),
      )
]
  where
    not_ready :
        (rows : List Row)
        → any (is_ready now) rows ≡ false
        → All (λ s. is_ready now s ≡ true → r.available_at ≤ s.available_at) rows
    not_ready [] n = tt
    not_ready (s ∷ rows) n = (λ t. ground arith, not_ready rows (ground arith))

take_row-some :
    (until : ℕ) (chosen : Option Row) (q next : Queue) {b : QueuedBatch}
    → take_row until chosen q ≡ (next, some b)
    → (r : Row) × (chosen ≡ some r)
      × (to_batch r ≡ b)
      × (record q { batches = update_first (λ s. s.id == r.id) (lease until) q.batches } ≡ next)
take_row-some until none q next h = ground arith
take_row-some until (some r) q next h = (r, refl, ground arith, ground arith)

take_row-none :
    (until : ℕ) (chosen : Option Row) (q : Queue)
    → (take_row until chosen q).1 ≡ none
    → chosen ≡ none
take_row-none until none q h = refl
take_row-none until (some r) q h = ground arith

-- A claim that gives nothing found nothing to give: each batch is sent, not due yet, or leased to
-- a caller whose lease has not run out.
pub claim-none :
    (lease_ms now : ℕ) (q : Queue)
    → (claim lease_ms now q).1 ≡ none
    → any (is_ready now) (map (expire now) q.batches) ≡ false
unfolding claim
claim-none lease_ms now q h =
    first_ready-none now (map (expire now) q.batches) (take_row-none _ _ _ h)

find_row-leased :
    (until : ℕ) (id : String) (rows : List Row) {r : Row}
    → find_row id rows ≡ some r
    → find_row id (update_first (λ s. s.id == id) (lease until) rows) ≡ some (lease until r)
find_row-leased until id [] h = ground arith
find_row-leased until id (s ∷ rows) {r} h = ground (arith, find_row-leased until id rows {r = r})

-- What was taken: the row of its id, once the leases that ran out are given up, which was due and no
-- later than any that was due, and which is leased now. The ids and keys are distinct.
pub claim_taken :
    (lease_ms now : ℕ) (q next : Queue) {b : QueuedBatch}
    → IsKeyed q
    → claim lease_ms now q ≡ (next, some b)
    → (r : Row) × (find_row b.id (map (expire now) q.batches) ≡ some r)
      × (is_ready now r ≡ true)
      × (to_batch r ≡ b)
      × All
          (λ s. is_ready now s ≡ true → r.available_at ≤ s.available_at)
          (map (expire now) q.batches)
      × (find_row b.id next.batches ≡ some (lease (now + lease_ms) r))
unfolding claim
claim_taken lease_ms now q next {b} v h =
    let rows = map (expire now) q.batches in
    let (r, chosen, given, same) =
      take_row-some (now + lease_ms) (first_ready now rows) (record q { batches = rows }) next h in
    let (found, ready) = first_ready-find now rows (IsKeyed-expire now q v).ids_distinct chosen in
    let same_id : r.id ≡ b.id = ap (λ (c : QueuedBatch). c.id) given in
    (
      r,
      subst (λ i. find_row i rows ≡ some r) same_id found,
      ready,
      given,
      first_ready_least now rows chosen,
      subst (λ i. find_row i next.batches ≡ some (lease (now + lease_ms) r)) same_id
          (subst (λ (n : Queue). find_row r.id n.batches ≡ some (lease (now + lease_ms) r)) same
            (find_row-leased (now + lease_ms) r.id rows found)),
    )

-- A call at a time up to `until` that does not settle the batch `id`.
abbrev pub IsQuiet : String → ℕ → Call → Type 0
IsQuiet id until (enqueue_call _ _ _ _ _ _) = Unit
IsQuiet id until (claim_call _ now) = now ≤ until
IsQuiet id until (mark_sent_call other _) = (other == id) ≡ false
IsQuiet id until (release_call other _ _ _) = (other == id) ≡ false

leased-Leaves : (until : ℕ) (r : Row) (c : Call) → IsQuiet r.id until c → Leaves (lease until r) c
leased-Leaves until r (enqueue_call _ _ _ _ _ _) n = tt
leased-Leaves until r (claim_call _ now) n = (ground arith, ground arith)
leased-Leaves until r (mark_sent_call id _) n = ground arith
leased-Leaves until r (release_call id _ _ _) n = ground arith

claim-IsKeyed :
    (lease_ms now : ℕ) (q next : Queue) {b : Option QueuedBatch}
    → IsKeyed q
    → claim lease_ms now q ≡ (next, b)
    → IsKeyed next
unfolding run
claim-IsKeyed lease_ms now q next v h =
    subst IsKeyed (ap (λ (p : Queue × Option QueuedBatch). p.0) h)
      (run-IsKeyed (claim_call lease_ms now) q v)

-- On distinct ids and keys a lease is exclusive: after a claim, and after any calls at times
-- up to the end of its lease that do not settle its batch, a claim up to that time gives
-- another batch.
pub claim_exclusive :
    (lease_ms now lease_ms' now' : ℕ) (calls : List Call) (q next last : Queue) {b b' : QueuedBatch}
    → IsKeyed q
    → claim lease_ms now q ≡ (next, some b)
    → All (IsQuiet b.id (now + lease_ms)) calls
    → now' ≤ now + lease_ms
    → claim lease_ms' now' (run_all calls next) ≡ (last, some b')
    → b'.id ≢ b.id
claim_exclusive lease_ms now lease_ms' now' calls q next last {b} {b'} v h quiet early h' same =
    let (r, found, _, given, _, leased) = claim_taken lease_ms now q next v h in
    let held = lease (now + lease_ms) r in
    let v' = claim-IsKeyed lease_ms now q next v h in
    let id_same : r.id ≡ b.id = ap (λ (c : QueuedBatch). c.id) given in
    let all_leave =
      All-map _ _ (leased-Leaves (now + lease_ms) r) calls
        (subst (λ i. All (IsQuiet i (now + lease_ms)) calls) (sym id_same) quiet) in
    let kept = run_all-Leaves b.id held calls next v' all_leave leased in
    let (r', found', ready', _, _, _) =
      claim_taken lease_ms' now' (run_all calls next) last (run_all-IsKeyed calls next v') h' in
    let other : some (expire now' held) ≡ some r' =
      sym (
        find_row-expire now' b.id (run_all calls next).batches ∙ ap (Option.map (expire now')) kept)
      ∙ subst (λ i. find_row i (map (expire now') (run_all calls next).batches) ≡ some r') same
          found' in
    not_ready r r' other ready'
  where
    not_ready :
        (r r' : Row)
        → some (expire now' (lease (now + lease_ms) r)) ≡ some r'
        → is_ready now' r' ≡ true
        → ⊥
    not_ready r r' e ready = ground (arith, early)
