-- ===== src/Prelude/Sets.antt =====
-- Lists without repetition, and the loop that finds a repetition with a set of what it has seen.
use open_data_fusion.Prelude.{
  String, String_discrete, ◌≡◌, refl, true, false, List, [], ◌∷◌, ◌++◌, arith, contains,
  contains-append, All, All-map, Distinct,
}

-- What a loop checks that adds each text to a set and stops at one that the set has.
abbrev pub Fresh : List String → List String → Type 0
Fresh seen [] = Unit
Fresh seen (x ∷ xs) = (contains seen x ≡ false) × Fresh (x ∷ seen) xs

abbrev Avoids : List String → List String → Type 0
Avoids seen xs = All (λ x. contains seen x ≡ false) xs

Avoids-tail : (x : String) (seen xs : List String) → Avoids (x ∷ seen) xs → Avoids seen xs
Avoids-tail x seen xs h = All-map _ _ (λ y p. ground arith) xs h

contains_of_Avoids :
    (x : String) (seen xs : List String) → Avoids (x ∷ seen) xs → contains xs x ≡ false
contains_of_Avoids x seen [] h = refl
contains_of_Avoids x seen (y ∷ xs) h = ground (arith, contains_of_Avoids x seen xs)

Avoids-cons :
    (x : String) (seen xs : List String)
    → contains xs x ≡ false
    → Avoids seen xs
    → Avoids (x ∷ seen) xs
Avoids-cons x seen [] h k = tt
Avoids-cons x seen (y ∷ xs) h k = (ground arith, Avoids-cons x seen xs (ground arith) k.1)

Fresh→Distinct_Avoids : (seen xs : List String) → Fresh seen xs → Distinct xs × Avoids seen xs
Fresh→Distinct_Avoids seen [] h = (tt, tt)
Fresh→Distinct_Avoids seen (x ∷ xs) (new, h) =
    let (distinct, avoids) = Fresh→Distinct_Avoids (x ∷ seen) xs h in
    ((contains_of_Avoids x seen xs avoids, distinct), (new, Avoids-tail x seen xs avoids))

Distinct_Avoids→Fresh : (seen xs : List String) → Distinct xs → Avoids seen xs → Fresh seen xs
Distinct_Avoids→Fresh seen [] d a = tt
Distinct_Avoids→Fresh seen (x ∷ xs) d a =
    (a.0, Distinct_Avoids→Fresh (x ∷ seen) xs d.1 (Avoids-cons x seen xs d.0 a.1))

Avoids-nil : (xs : List String) → Avoids [] xs
Avoids-nil [] = tt
Avoids-nil (x ∷ xs) = (refl, Avoids-nil xs)

pub Fresh→Distinct : (xs : List String) → Fresh [] xs → Distinct xs
Fresh→Distinct xs h = (Fresh→Distinct_Avoids [] xs h).0

pub Distinct→Fresh : (xs : List String) → Distinct xs → Fresh [] xs
Distinct→Fresh xs d = Distinct_Avoids→Fresh [] xs d (Avoids-nil xs)

pub Distinct-snoc :
    (xs : List String) (a : String) → Distinct xs → contains xs a ≡ false → Distinct (xs ++ a ∷ [])
Distinct-snoc [] a d new = (refl, tt)
Distinct-snoc (x ∷ xs) a d new =
    (ground (arith, contains-append xs (a ∷ []) x), Distinct-snoc xs a d.1 (ground arith))

-- A predicate of all the elements holds of one that is found.
pub All_of_contains :
    (P : String → Type 0) (xs : List String) (a : String) → All P xs → contains xs a ≡ true → P a
All_of_contains P [] a h m = cc
All_of_contains P (x ∷ xs) a h m = elim (String_discrete a x) [
  | yes same ↦ rw same h.0
  | no other ↦ All_of_contains P xs a h.1 (ground arith)
]
