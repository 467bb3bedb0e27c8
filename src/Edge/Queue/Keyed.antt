-- ===== src/Edge/Queue/Keyed.antt =====
-- What holds of the durable queue after any sequence of calls of its methods: its two unique columns.
use open_data_fusion.Prelude.{
  String, ◌==◌, ℕ, ◌+◌, ◌≡◌, refl, ap, subst, Bool, true, false, Option, none, some, List, [], ◌∷◌,
  ◌++◌, map, arith, if◌then◌else◌, any, update_first, contains, Distinct, Bool-cases, inl, inr, ◌⊎◌,
}
use open_data_fusion.Prelude.Result.{Result, ok, err}
use open_data_fusion.Prelude.Sets.{Distinct-snoc}
use open_data_fusion.Prelude.Maps.{insert}
use open_data_fusion.Edge.Queue.{
  Row, Queue, Bundle, Archive, Error, not_leased, expire, first_ready, has_key, new_row, enqueue,
  lease, take_row, claim, is_leased, update_leased, delivered, postponed, mark_sent, release,
}
use open_data_fusion.Edge.Queue.Rows.{
  ids, keys, find_row, map-update_first, map-expire, expire-id, expire-key, find_row-append,
}

-- A call of a method, with the time at which it runs.
pub data Call : Type 0 where
  enqueue_call :
      (id source : String) → Bundle → (checkpoint_after : String) → Archive → (now : ℕ) → Call
  claim_call : (lease_ms now : ℕ) → Call
  mark_sent_call : String → (now : ℕ) → Call
  release_call : String → (error : String) → (delay_ms now : ℕ) → Call

abbrev pub keep : {A : Type 0} → (A → Queue) → Queue → Result Error A → Queue
keep f q (ok a) = f a
keep f q (err e) = q

-- A method that throws leaves the tables as they were.
unfoldable pub run : Call → Queue → Queue
run (enqueue_call id source bundle after archive now) q =
    keep (λ r. r.0) q (enqueue id source bundle after archive now q)
run (claim_call lease_ms now) q = (claim lease_ms now q).0
run (mark_sent_call id now) q = keep (λ r. r) q (mark_sent id now q)
run (release_call id error delay_ms now) q = keep (λ r. r) q (release id error delay_ms now q)

unfoldable pub run_all : List Call → Queue → Queue
unfolding run
run_all [] q = q
run_all (c ∷ calls) q = run_all calls (run c q)

-- The two unique columns of the table.
pub record IsKeyed (q : Queue) : Type 0 where
  pub ids_distinct : Distinct (ids q.batches)
  pub keys_distinct : Distinct (keys q.batches)

contains-map :
    (key : Row → String) (k : String) (rows : List Row)
    → contains (map key rows) k ≡ any (λ r. key r == k) rows
contains-map key k [] = refl
contains-map key k (r ∷ rows) = ground (arith, contains-map key k rows)

map-snoc :
    (key : Row → String) (rows : List Row) (r : Row)
    → map key (rows ++ r ∷ []) ≡ map key rows ++ key r ∷ []
map-snoc key [] r = refl
map-snoc key (s ∷ rows) r = ap (λ ks. key s ∷ ks) (map-snoc key rows r)

Distinct-new :
    (key : Row → String) (rows : List Row) (r : Row)
    → Distinct (map key rows)
    → any (λ s. key s == key r) rows ≡ false
    → Distinct (map key (rows ++ r ∷ []))
Distinct-new key rows r d new =
    rw (map-snoc key rows r)
      (Distinct-snoc (map key rows) (key r) d (rw (contains-map key (key r) rows) new))

-- The queue with one batch more.
abbrev pub grown : (id source : String) → Bundle → (after : String) → Archive → ℕ → Queue → Queue
grown id source bundle after archive now q = record {
  checkpoints = insert source after q.checkpoints;
  batches = q.batches ++ new_row id source bundle after archive now ∷ [];
}

module _ (id source : String) (bundle : Bundle) (after : String) (archive : Archive) (now : ℕ)
    (q next : Queue) {inserted : Bool}
    (h : enqueue id source bundle after archive now q ≡ ok (next, inserted)) where
  pub enqueue_cases :
      ((q ≡ next) × (inserted ≡ false) × (has_key bundle.run_id q.batches ≡ true))
      ⊎ ((grown id source bundle after archive now q ≡ next)
          × (inserted ≡ true)
          × (has_key bundle.run_id q.batches ≡ false)
          × (any (λ r. r.id == id) q.batches ≡ false))
  unfolding enqueue
  enqueue_cases = elim (Bool-cases (has_key bundle.run_id q.batches)) [
    | inl e ↦ inl (ground arith)
    | inr e ↦ inr (ground arith)
  ]

  enqueue-IsKeyed : IsKeyed q → IsKeyed next
  enqueue-IsKeyed k = elim enqueue_cases [
    | inl (same, _, _) ↦ subst IsKeyed same k
    | inr (same, _, new_key, new_id) ↦ subst IsKeyed same (record {
      ids_distinct =
          Distinct-new (λ r. r.id) q.batches (new_row id source bundle after archive now)
            k.ids_distinct new_id;
      keys_distinct =
          Distinct-new (λ r. r.idempotency_key) q.batches
            (new_row id source bundle after archive now) k.keys_distinct new_key;
    })
  ]

  pub enqueue-find_row :
      (j : String) {r : Row} → find_row j q.batches ≡ some r → find_row j next.batches ≡ some r
  enqueue-find_row j {r} f = elim enqueue_cases [
    | inl (same, _, _) ↦ subst (λ n. find_row j n.batches ≡ some r) same f
    | inr (same, _, _, _) ↦
        subst (λ n. find_row j n.batches ≡ some r) same (find_row-append j q.batches _ f)
  ]

-- An UPDATE of the rows that keeps the two columns.
IsKeyed-map :
    (q next : Queue)
    → ids next.batches ≡ ids q.batches
    → keys next.batches ≡ keys q.batches
    → IsKeyed q
    → IsKeyed next
IsKeyed-map q next i k v = record {
  ids_distinct = rw i v.ids_distinct;
  keys_distinct = rw k v.keys_distinct;
}

IsKeyed-update_first :
    (p : Row → Bool) (f : Row → Row) (q : Queue)
    → ((r : Row) → (f r).id ≡ r.id)
    → ((r : Row) → (f r).idempotency_key ≡ r.idempotency_key)
    → IsKeyed q
    → IsKeyed (record q { batches = update_first p f q.batches })
IsKeyed-update_first p f q i k v =
    IsKeyed-map q _ (map-update_first (λ r. r.id) p f i q.batches)
      (map-update_first (λ r. r.idempotency_key) p f k q.batches) v

pub IsKeyed-expire :
    (now : ℕ) (q : Queue) → IsKeyed q → IsKeyed (record q { batches = map (expire now) q.batches })
IsKeyed-expire now q v =
    IsKeyed-map q _ (map-expire (λ r. r.id) now (expire-id now) q.batches)
      (map-expire (λ r. r.idempotency_key) now (expire-key now) q.batches) v

pub take_row-IsKeyed :
    (until : ℕ) (chosen : Option Row) (q : Queue) → IsKeyed q → IsKeyed (take_row until chosen q).0
take_row-IsKeyed until none q v = v
take_row-IsKeyed until (some r) q v =
    IsKeyed-update_first _ (lease until) q (λ _. refl) (λ _. refl) v

-- A property of the queue that each UPDATE of a leased row keeps.
pub update_leased_ind :
    (P : Queue → Type 0) (id : String) (f : Row → Row) (q : Queue)
    → P q
    → P (record q { batches = update_first (is_leased id) f q.batches })
    → P (keep (λ r. r) q (update_leased id f q))
update_leased_ind P id f q before after =
    elim (any (is_leased id) q.batches)
      as (λ b. P (
        keep (λ r. r) q
          (if b
            then ok (record q { batches = update_first (is_leased id) f q.batches })
            else err (not_leased id)))) [ true ↦ after | false ↦ before ]

pub keep_ind :
    {A : Type 0} (P : Queue → Type 0) (f : A → Queue) (q : Queue) (r : Result Error A)
    → P q
    → ((a : A) → r ≡ ok a → P (f a))
    → P (keep f q r)
keep_ind P f q (ok a) before after = after a refl
keep_ind P f q (err e) before after = before

pub run-IsKeyed : (c : Call) (q : Queue) → IsKeyed q → IsKeyed (run c q)
unfolding run claim mark_sent release
run-IsKeyed (enqueue_call id source bundle after archive now) q v =
    keep_ind IsKeyed (λ r. r.0) q (enqueue id source bundle after archive now q) v
      (λ r e. enqueue-IsKeyed id source bundle after archive now q r.0 e v)
run-IsKeyed (claim_call lease_ms now) q v =
    take_row-IsKeyed _ (first_ready now (map (expire now) q.batches)) _ (IsKeyed-expire now q v)
run-IsKeyed (mark_sent_call id now) q v =
    update_leased_ind IsKeyed id (delivered now) q v
      (IsKeyed-update_first (is_leased id) (delivered now) q (λ _. refl) (λ _. refl) v)
run-IsKeyed (release_call id error delay_ms now) q v =
    update_leased_ind IsKeyed id (postponed error (now + delay_ms)) q v (
      IsKeyed-update_first (is_leased id) (postponed error (now + delay_ms)) q (λ _. refl)
        (λ _. refl) v)

-- Whatever the calls, no two batches have the same id or the same idempotency key if none had.
pub run_all-IsKeyed : (calls : List Call) (q : Queue) → IsKeyed q → IsKeyed (run_all calls q)
unfolding run_all
run_all-IsKeyed [] q v = v
run_all-IsKeyed (c ∷ calls) q v = run_all-IsKeyed calls (run c q) (run-IsKeyed c q v)
