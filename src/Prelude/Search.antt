-- ===== src/Prelude/Search.antt =====
-- Searches in a list that grows, shrinks or has one element changed.
use open_data_fusion.Prelude.{
  ℕ, ◌+◌, ◌≡◌, refl, Bool, true, false, ◌||◌, none, some, List, [], ◌∷◌, ◌++◌, arith, if◌then◌else◌,
  is_some, any, find, count, update_first, remove_first,
}

-- 1 for an element that passes.
abbrev pub mark : Bool → ℕ
mark true = 1
mark false = 0

module _ {A : Type 0} (p : A → Bool) where
  pub any-append : (xs ys : List A) → any p (xs ++ ys) ≡ (any p xs || any p ys)
  any-append [] ys = refl
  any-append (x ∷ xs) ys = ground (arith, any-append xs ys)

  pub find-append :
      (xs : List A) (y : A)
      → find p (xs ++ y ∷ [])
        ≡ elim (find p xs) [ some x ↦ some x | none ↦ if p y then some y else none ]
  find-append [] y = refl
  find-append (x ∷ xs) y = ground (arith, find-append xs y)

  pub find_of_not_any : (xs : List A) → any p xs ≡ false → find p xs ≡ none
  find_of_not_any [] h = refl
  find_of_not_any (x ∷ xs) h = ground (arith, find_of_not_any xs)

  pub any-find : (xs : List A) → any p xs ≡ is_some (find p xs)
  any-find [] = refl
  any-find (x ∷ xs) = ground (arith, any-find xs)

  pub find_passes : (xs : List A) {x : A} → find p xs ≡ some x → p x ≡ true
  find_passes [] h = cc
  find_passes (y ∷ xs) {x} h = ground (arith, find_passes xs {x = x})

  pub count-append : (xs : List A) (y : A) → count p (xs ++ y ∷ []) ≡ count p xs + mark (p y)
  count-append [] y = ground arith
  count-append (x ∷ xs) y = ground (arith, count-append xs y)

module _ {A : Type 0} (p q : A → Bool) where
  pub any_mono :
      ((a : A) → p a ≡ true → q a ≡ true) → (xs : List A) → any q xs ≡ false → any p xs ≡ false
  any_mono f [] h = refl
  any_mono f (x ∷ xs) h = ground (arith, f x, any_mono f xs)

  pub count-remove_first :
      (xs : List A) {x : A}
      → find q xs ≡ some x
      → count p (remove_first q xs) + mark (p x) ≡ count p xs
  count-remove_first [] h = cc
  count-remove_first (y ∷ xs) {x} h = ground (arith, count-remove_first xs {x = x})

  pub count-update_first :
      (f : A → A) (xs : List A) {x : A}
      → find q xs ≡ some x
      → count p (update_first q f xs) + mark (p x) ≡ count p xs + mark (p (f x))
  count-update_first f [] h = cc
  count-update_first f (y ∷ xs) {x} h = ground (arith, count-update_first f xs {x = x})
