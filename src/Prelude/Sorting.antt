-- ===== src/Prelude/Sorting.antt =====
-- The sort of the standard library, by a Boolean "before": what it promises is a sorted
-- rearrangement. Elements that neither precedes the other keep their order here.
use mathlib.Core.Path.{◌≡◌, refl}
use mathlib.Core.Bool.{Bool, true, false, not, ◌&&◌}
use mathlib.Core.List.{List, [], ◌∷◌, Perm}
use mathlib.Core.List.Perm
use mathlib.Core.Logic.{inl, inr}
use native.Mathlib.Omega.{arith}
use trainsplorer.Prelude.Tests.{if◌then◌else◌, Bool-cases}

module _ {ℓ} {A : Type ℓ} (lt : A → A → Bool) where
  pub insert_sorted : A → List A → List A
  insert_sorted x [] = x ∷ []
  insert_sorted x (y ∷ ys) =
      let rest = insert_sorted x ys in if lt y x then y ∷ rest else x ∷ y ∷ ys

  unfoldable pub sort : List A → List A
  unfolding insert_sorted
  sort [] = []
  sort (x ∷ xs) = insert_sorted x (sort xs)

  -- `IsSorted::is_sorted` of the `is_sorted` crate's slice order: no element before its predecessor.
  abbrev pub IsSorted : List A → Type 0
  IsSorted [] = Unit
  IsSorted (x ∷ []) = Unit
  IsSorted (x ∷ (y ∷ l)) = (lt y x ≡ false) × IsSorted (y ∷ l)

  unfoldable pub is_sorted : List A → Bool
  is_sorted [] = true
  is_sorted (x ∷ []) = true
  is_sorted (x ∷ (y ∷ l)) = not (lt y x) && is_sorted (y ∷ l)

  pub IsSorted-of_is_sorted : (l : List A) → is_sorted l ≡ true → IsSorted l
  unfolding is_sorted
  IsSorted-of_is_sorted [] h = tt
  IsSorted-of_is_sorted (x ∷ []) h = tt
  IsSorted-of_is_sorted (x ∷ (y ∷ l)) h = ground (arith, IsSorted-of_is_sorted (y ∷ l))

  pub is_sorted-of_IsSorted : (l : List A) → IsSorted l → is_sorted l ≡ true
  unfolding is_sorted
  is_sorted-of_IsSorted [] h = refl
  is_sorted-of_IsSorted (x ∷ []) h = refl
  is_sorted-of_IsSorted (x ∷ (y ∷ l)) h = rw (h.0) (is_sorted-of_IsSorted (y ∷ l) h.1)

  pub insert_sorted-perm : (x : A) (l : List A) → Perm (insert_sorted x l) (x ∷ l)
  unfolding insert_sorted
  insert_sorted-perm x [] = Perm.refl (x ∷ [])
  insert_sorted-perm x (y ∷ ys) = elim (Bool-cases (lt y x)) [
    | inl e ↦ rw e (Perm.trans (Perm.cons y (insert_sorted-perm x ys)) (Perm.swap x y ys))
    | inr e ↦ rw e (Perm.refl (x ∷ y ∷ ys))
  ]

  pub sort-perm : (l : List A) → Perm (sort l) l
  unfolding sort
  sort-perm [] = Perm.refl []
  sort-perm (x ∷ xs) = Perm.trans (insert_sorted-perm x (sort xs)) (Perm.cons x (sort-perm xs))

  -- A sorted list is left as it is.
  pub sort-IsSorted_self : (l : List A) → IsSorted l → sort l ≡ l
  unfolding sort
  sort-IsSorted_self [] h = refl
  sort-IsSorted_self (x ∷ []) h = refl
  sort-IsSorted_self (x ∷ (y ∷ l)) h = rw (sort-IsSorted_self (y ∷ l) h.1) (rw (h.0))

  module _ (lt_asym : (a b : A) → lt a b ≡ true → lt b a ≡ false) where
    insert_sorted-IsSorted : (x : A) (l : List A) → IsSorted l → IsSorted (insert_sorted x l)
    unfolding insert_sorted
    insert_sorted-IsSorted x [] h = tt
    insert_sorted-IsSorted x (y ∷ []) h = ground (arith, lt_asym y x)
    insert_sorted-IsSorted x (y ∷ (z ∷ l)) h =
        ground (arith, lt_asym y x, insert_sorted-IsSorted x (z ∷ l))

    pub sort-IsSorted : (l : List A) → IsSorted (sort l)
    unfolding sort
    sort-IsSorted [] = tt
    sort-IsSorted (x ∷ xs) = insert_sorted-IsSorted x (sort xs) (sort-IsSorted xs)

  -- A sort of which nothing is known but that it gives a sorted rearrangement: where the order does not
  -- tell elements apart, it may put either first.
  pub record Sorter : Type ℓ where
    pub run : List A → List A
    pub sorted : (l : List A) → IsSorted (run l)
    pub rearranged : (l : List A) → Perm (run l) l
