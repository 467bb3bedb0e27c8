-- ===== src/Industry/Ingest/Runs.antt =====
-- The row of a run, and of any other, after an upsert or an update of the table of runs in
-- apps/api/src/database.ts.
use open_data_fusion.Prelude.{
  String, ◌==◌, ◌≡◌, refl, sym, subst, Bool, true, false, some, List, [], ◌∷◌, arith, find,
  update_first, if◌then◌else◌, Bool-cases, inl, inr,
}
use open_data_fusion.Industry.Tables.{upsert}

pub find-upsert :
    {A : Type 0} (p : A → Bool) (new : A) (rows : List A)
    → p new ≡ true
    → find p (upsert p (λ row. new) new rows) ≡ some new
find-upsert p new [] h = rw h refl
find-upsert p new (row ∷ rows) h = elim (Bool-cases (p row)) [
  | inl e ↦ rw (e, h) refl
  | inr e ↦ rw (e, e) (find-upsert p new rows h)
]

pub other_run : (a b c : String) → (a == b) ≡ true → (b == c) ≡ false → (a == c) ≡ false
other_run a b c h k = ground arith

pub find-upserted :
    {A : Type 0} (p : A → Bool) (f : A → A) (new : A) (P : A → Type 0) (rows : List A)
    → p new ≡ true
    → P new
    → ((x : A) → p x ≡ true → (p (f x) ≡ true) × P (f x))
    → (x : A) × (find p (upsert p f new rows) ≡ some x) × P x
find-upserted p f new P [] h n updated = (new, rw h refl, n)
find-upserted p f new P (row ∷ rows) h n updated = elim (Bool-cases (p row)) [
  | inl e ↦ let (same, u) = updated row e in (f row, rw (e, same) refl, u)
  | inr e ↦ rw (e, e) (find-upserted p f new P rows h n updated)
]

-- Another row is found as before.
pub find-upsert_other :
    {A : Type 0} (p : A → Bool) (f : A → A) (new : A) (q : A → Bool) (rows : List A)
    → q new ≡ false
    → ((x : A) → p x ≡ true → q x ≡ false)
    → ((x : A) → q (f x) ≡ q x)
    → find q (upsert p f new rows) ≡ find q rows
find-upsert_other p f new q [] n apart same = rw n refl
find-upsert_other p f new q (row ∷ rows) n apart same = elim (Bool-cases (p row)) [
  | inl e ↦ rw (e, same row, apart row e) refl
  | inr e ↦ rw (e, find-upsert_other p f new q rows n apart same) refl
]

pub some-injective : {A : Type 0} {a b : A} → some a ≡ some b → a ≡ b
some-injective h = cc

pub find-update_first :
    {A : Type 0} (p : A → Bool) (f : A → A) (x : A) (rows : List A)
    → p (f x) ≡ true
    → find p rows ≡ some x
    → find p (update_first p f rows) ≡ some (f x)
find-update_first p f x [] h e = cc
find-update_first p f x (row ∷ rows) h e = at (p row) refl (find-update_first p f x rows h) e
  where
    at :
        (b : Bool)
        → p row ≡ b
        → (find p rows ≡ some x → find p (update_first p f rows) ≡ some (f x))
        → (if b then some row else find p rows) ≡ some x
        → find p (if b then f row ∷ rows else row ∷ update_first p f rows) ≡ some (f x)
    at true t rest e =
        subst (λ y. find p (f y ∷ rows) ≡ some (f x)) (sym (some-injective e)) (rw h refl)
    at false t rest e = rw t (rest e)
