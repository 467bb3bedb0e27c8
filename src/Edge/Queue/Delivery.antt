-- ===== src/Edge/Queue/Delivery.antt =====
-- What the durable queue never loses: a row that no statement selects.
use mathlib.Core.Option
use open_data_fusion.Prelude.{
  String, ◌==◌, ℕ, ◌+◌, ◌≡◌, refl, ap, ◌∙◌, All, true, false, Option, none, some, List, [], ◌∷◌,
  map, arith,
}
use open_data_fusion.Edge.Queue.{
  Row, Queue, sent, is_ready, expire, first_ready, enqueue, lease, take_row, claim, is_leased,
  update_leased, delivered, postponed, mark_sent, release,
}
use open_data_fusion.Edge.Queue.Rows.{
  find_row, find_row-expire, find_row-update_first, find_row-id, first_ready-find,
}
use open_data_fusion.Edge.Queue.Keyed.{
  Call, enqueue_call, claim_call, mark_sent_call, release_call, keep, run, run_all, IsKeyed,
  IsKeyed-expire, enqueue-find_row, update_leased_ind, keep_ind, run-IsKeyed,
}

-- A call whose statements do not select the row.
abbrev pub Leaves : Row → Call → Type 0
Leaves r (enqueue_call _ _ _ _ _ _) = Unit
Leaves r (claim_call _ now) = (expire now r ≡ r) × (is_ready now r ≡ false)
Leaves r (mark_sent_call id _) = is_leased id r ≡ false
Leaves r (release_call id _ _ _) = is_leased id r ≡ false

module _ (j : String) (r : Row) where
  take_row-Leaves :
      (until now : ℕ) (chosen : Option Row) (q : Queue)
      → is_ready now r ≡ false
      → ((c : Row) → chosen ≡ some c → (find_row c.id q.batches ≡ some c) × (is_ready now c ≡ true))
      → find_row j q.batches ≡ some r
      → find_row j (take_row until chosen q).0.batches ≡ some r
  take_row-Leaves until now none q n h f = f
  take_row-Leaves until now (some c) q n h f =
      find_row-update_first (λ s. s.id == c.id) (lease until) (λ _. refl) j q.batches f
        (other (h c refl))
    where
      other : (find_row c.id q.batches ≡ some c) × (is_ready now c ≡ true) → (r.id == c.id) ≡ false
      other (found, ready) = ground (arith, find_row-id j q.batches f)

  claim-Leaves :
      (lease_ms now : ℕ) (q : Queue)
      → IsKeyed q
      → Leaves r (claim_call lease_ms now)
      → find_row j q.batches ≡ some r
      → find_row j (claim lease_ms now q).0.batches ≡ some r
  unfolding claim
  claim-Leaves lease_ms now q v (kept, n) f =
      take_row-Leaves (now + lease_ms) now (first_ready now (map (expire now) q.batches)) _ n
        (λ c e. first_ready-find now _ (IsKeyed-expire now q v).ids_distinct e)
        (find_row-expire now j q.batches ∙ ap (Option.map (expire now)) f ∙ ap some kept)

  leased-Leaves :
      (id : String) (g : Row → Row) (q : Queue)
      → ((s : Row) → (g s).id ≡ s.id)
      → is_leased id r ≡ false
      → find_row j q.batches ≡ some r
      → find_row j (keep (λ n. n) q (update_leased id g q)).batches ≡ some r
  leased-Leaves id g q keeps n f =
      update_leased_ind (λ n. find_row j n.batches ≡ some r) id g q f
        (find_row-update_first (is_leased id) g keeps j q.batches f n)

  run-Leaves :
      (c : Call) (q : Queue)
      → IsKeyed q
      → Leaves r c
      → find_row j q.batches ≡ some r
      → find_row j (run c q).batches ≡ some r
  unfolding run mark_sent release
  run-Leaves (enqueue_call id source bundle after archive now) q v n f =
      keep_ind (λ n. find_row j n.batches ≡ some r) (λ p. p.0) q
        (enqueue id source bundle after archive now q) f
        (λ p e. enqueue-find_row id source bundle after archive now q p.0 e j f)
  run-Leaves (claim_call lease_ms now) q v n f = claim-Leaves lease_ms now q v n f
  run-Leaves (mark_sent_call id now) q v n f = leased-Leaves id (delivered now) q (λ _. refl) n f
  run-Leaves (release_call id error delay_ms now) q v n f =
      leased-Leaves id (postponed error (now + delay_ms)) q (λ _. refl) n f

  pub run_all-Leaves :
      (calls : List Call) (q : Queue)
      → IsKeyed q
      → All (Leaves r) calls
      → find_row j q.batches ≡ some r
      → find_row j (run_all calls q).batches ≡ some r
  unfolding run_all
  run_all-Leaves [] q v n f = f
  run_all-Leaves (c ∷ calls) q v (n, ns) f =
      run_all-Leaves calls (run c q) (run-IsKeyed c q v) ns (run-Leaves c q v n f)

sent-Leaves : (r : Row) (c : Call) → r.state ≡ sent → Leaves r c
sent-Leaves r (enqueue_call _ _ _ _ _ _) done = tt
sent-Leaves r (claim_call _ now) done = (ground arith, ground arith)
sent-Leaves r (mark_sent_call id _) done = ground arith
sent-Leaves r (release_call id _ _ _) done = ground arith

-- On distinct ids and keys, a batch that was sent stays in the queue unchanged, whatever the
-- calls after it.
pub run_all-sent :
    (j : String) (r : Row) (calls : List Call) (q : Queue)
    → IsKeyed q
    → r.state ≡ sent
    → find_row j q.batches ≡ some r
    → find_row j (run_all calls q).batches ≡ some r
run_all-sent j r calls q v done f = run_all-Leaves j r calls q v (all_leave calls) f
  where
    all_leave : (calls : List Call) → All (Leaves r) calls
    all_leave [] = tt
    all_leave (c ∷ calls) = (sent-Leaves r c done, all_leave calls)
