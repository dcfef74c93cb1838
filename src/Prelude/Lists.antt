-- ===== src/Prelude/Lists.antt =====
-- Lists: membership and "for all" by recursion, length, selection by a Boolean test.
use Prim.Native.Nat.{ℕ, suc, ◌≤◌}
use mathlib.Core.Path.{◌≡◌, refl, sym, subst, ap}
use mathlib.Core.Logic.{◌⊎◌, inl, inr}
use mathlib.Core.Bool.{Bool, true, false, not}
use mathlib.Core.Option.{Option, none, some}
use mathlib.Core.List.{List, [], ◌∷◌, ◌++◌, map}
use native.Mathlib.Omega.{arith}
use trainsplorer.Prelude.Tests.{if◌then◌else◌, Bool-cases}

module _ {ℓ} {A : Type ℓ} where
  abbrev pub length : List A → ℕ
  length [] = 0
  length (x ∷ xs) = suc (length xs)

  -- `into_iter().nth(0)`
  abbrev pub first : List A → Option A
  first [] = none
  first (x ∷ xs) = some x

  abbrev pub In : A → List A → Type ℓ
  In a [] = Unit → ⊥
  In a (x ∷ xs) = (a ≡ x) ⊎ In a xs

  abbrev pub All {κ} : (A → Type κ) → List A → Type κ
  All P [] = Unit
  All P (x ∷ xs) = P x × All P xs

  -- The rows that pass a test, in order: a `WHERE` clause, or `retain`.
  unfoldable pub select : (A → Bool) → List A → List A
  select p [] = []
  select p (x ∷ xs) = let rest = select p xs in if p x then x ∷ rest else rest

  -- The rows that remain after `DELETE ... WHERE p`.
  abbrev pub delete_where : (A → Bool) → List A → List A
  delete_where p = select (λ x. not (p x))

module _ {ℓ} {A : Type ℓ} where
  -- `UPDATE ... SET ... WHERE p`
  unfoldable pub update_where : (A → Bool) → (A → A) → List A → List A
  update_where p f [] = []
  update_where p f (x ∷ xs) = (if p x then f x else x) ∷ update_where p f xs

  pub All-update_where {κ} :
      (p : A → Bool) (f : A → A) (P : A → Type κ) (xs : List A)
      → ((x : A) → P x → P (f x))
      → All P xs
      → All P (update_where p f xs)
  unfolding update_where
  All-update_where p f P [] k h = tt
  All-update_where p f P (x ∷ xs) k h = (
    elim (Bool-cases (p x)) [ inl y ↦ rw y (k x h.0) | inr n ↦ rw n (h.0) ],
    All-update_where p f P xs k h.1,
  )

  pub In-nil {κ} : {P : Type κ} (a : A) → In a [] → P
  In-nil a h = absurd (h tt)

  pub In-All {κ} : (P : A → Type κ) (a : A) (xs : List A) → All P xs → In a xs → P a
  In-All P a [] h m = In-nil a m
  In-All P a (x ∷ xs) h (inl e) = subst P (sym e) h.0
  In-All P a (x ∷ xs) h (inr m) = In-All P a xs h.1 m

  pub All-of_In {κ} : (P : A → Type κ) (xs : List A) → ((a : A) → In a xs → P a) → All P xs
  All-of_In P [] h = tt
  All-of_In P (x ∷ xs) h = (h x (inl refl), All-of_In P xs (λ a m. h a (inr m)))

  pub All-mono {κ κ'} :
      (P : A → Type κ) (Q : A → Type κ')
      → ((a : A) → P a → Q a)
      → (xs : List A) → All P xs
      → All Q xs
  All-mono P Q f [] h = tt
  All-mono P Q f (x ∷ xs) h = (f x h.0, All-mono P Q f xs h.1)

  pub All-append {κ} : (P : A → Type κ) (xs ys : List A) → All P xs → All P ys → All P (xs ++ ys)
  All-append P [] ys h k = k
  All-append P (x ∷ xs) ys h k = (h.0, All-append P xs ys h.1 k)

  pub In-append_left : (a : A) (xs ys : List A) → In a xs → In a (xs ++ ys)
  In-append_left a [] ys m = In-nil a m
  In-append_left a (x ∷ xs) ys (inl e) = inl e
  In-append_left a (x ∷ xs) ys (inr m) = inr (In-append_left a xs ys m)

  pub In-append_right : (a : A) (xs ys : List A) → In a ys → In a (xs ++ ys)
  In-append_right a [] ys m = m
  In-append_right a (x ∷ xs) ys m = inr (In-append_right a xs ys m)

  pub In-append : (a : A) (xs ys : List A) → In a (xs ++ ys) → In a xs ⊎ In a ys
  In-append a [] ys m = inr m
  In-append a (x ∷ xs) ys (inl e) = inl (inl e)
  In-append a (x ∷ xs) ys (inr m) = elim (In-append a xs ys m) [
    | inl h ↦ inl (inr h)
    | inr h ↦ inr h
  ]

module _ {ℓ} {A : Type ℓ} (p : A → Bool) where
  pub select-yes : (x : A) (xs : List A) → p x ≡ true → select p (x ∷ xs) ≡ x ∷ select p xs
  unfolding select
  select-yes x xs h = rw h

  pub select-no : (x : A) (xs : List A) → p x ≡ false → select p (x ∷ xs) ≡ select p xs
  unfolding select
  select-no x xs h = rw h

  pub In-select : (a : A) (xs : List A) → In a (select p xs) → In a xs × (p a ≡ true)
  In-select a [] m = unfold select in In-nil a m
  In-select a (x ∷ xs) m = elim (Bool-cases (p x)) [
    | inl e ↦ elim (subst (In a) (select-yes x xs e) m) [
      | inl q ↦ (inl q, subst (λ b. p b ≡ true) (sym q) e)
      | inr q ↦ let r = In-select a xs q in (inr r.0, r.1)
    ]
    | inr e ↦ let r = In-select a xs (subst (In a) (select-no x xs e) m) in (inr r.0, r.1)
  ]

  pub In-select_of : (a : A) (xs : List A) → In a xs → p a ≡ true → In a (select p xs)
  In-select_of a [] m h = In-nil a m
  In-select_of a (x ∷ xs) (inl q) h =
      subst (In a) (sym (select-yes x xs (subst (λ b. p b ≡ true) q h))) (inl q)
  In-select_of a (x ∷ xs) (inr m) h = elim (Bool-cases (p x)) [
    | inl e ↦ subst (In a) (sym (select-yes x xs e)) (inr (In-select_of a xs m h))
    | inr e ↦ subst (In a) (sym (select-no x xs e)) (In-select_of a xs m h)
  ]

  pub All-select {κ} : (P : A → Type κ) (xs : List A) → All P xs → All P (select p xs)
  All-select P xs h = All-of_In P (select p xs) λ a m. In-All P a xs h (In-select a xs m).0

  pub select_all : (xs : List A) → All (λ x. p x ≡ true) xs → select p xs ≡ xs
  unfolding select
  select_all [] h = refl
  select_all (x ∷ xs) h = rw (h.0, select_all xs h.1)

  pub select_none : (xs : List A) → All (λ x. p x ≡ false) xs → select p xs ≡ []
  unfolding select
  select_none [] h = refl
  select_none (x ∷ xs) h = rw (h.0) (select_none xs h.1)

  pub select-append : (xs ys : List A) → select p (xs ++ ys) ≡ select p xs ++ select p ys
  unfolding select
  select-append [] ys = refl
  select-append (x ∷ xs) ys = ground (arith, select-append xs ys)

  -- With no row selected, every row fails the test.
  pub All-of_select-nil : (xs : List A) → select p xs ≡ [] → All (λ x. p x ≡ false) xs
  unfolding select
  All-of_select-nil [] h = tt
  All-of_select-nil (x ∷ xs) h = ground (arith, All-of_select-nil xs)

  pub length-select-le : (xs : List A) → length (select p xs) ≤ length xs
  unfolding select
  length-select-le [] = omega arith
  length-select-le (x ∷ xs) = ground (arith, length-select-le xs)

module _ {ℓ κ} {A : Type ℓ} {B : Type κ} where
  unfoldable pub concat_map : (A → List B) → List A → List B
  concat_map f [] = []
  concat_map f (x ∷ xs) = f x ++ concat_map f xs

  pub In-concat_map :
      (f : A → List B) (b : B) (xs : List A)
      → In b (concat_map f xs)
      → (x : A) × In x xs × In b (f x)
  In-concat_map f b [] m = unfold concat_map in In-nil b m
  In-concat_map f b (x ∷ xs) m =
      elim (In-append b (f x) (concat_map f xs) (unfold concat_map in m)) [
        | inl h ↦ (x, inl refl, h)
        | inr h ↦ let (y, my, mb) = In-concat_map f b xs h in (y, inr my, mb)
      ]

  pub In-concat_map_of :
      (f : A → List B) (b : B) (a : A) (xs : List A) → In a xs → In b (f a) → In b (concat_map f xs)
  unfolding concat_map
  In-concat_map_of f b a [] m h = In-nil a m
  In-concat_map_of f b a (x ∷ xs) (inl e) h =
      In-append_left b (f x) (concat_map f xs) (subst (λ y. In b (f y)) e h)
  In-concat_map_of f b a (x ∷ xs) (inr m) h =
      In-append_right b (f x) (concat_map f xs) (In-concat_map_of f b a xs m h)

  pub In-map : (f : A → B) (b : B) (xs : List A) → In b (map f xs) → (x : A) × In x xs × (b ≡ f x)
  In-map f b [] m = In-nil b m
  In-map f b (x ∷ xs) (inl e) = (x, inl refl, e)
  In-map f b (x ∷ xs) (inr m) = let (y, my, e) = In-map f b xs m in (y, inr my, e)

  pub In-map_of : (f : A → B) (a : A) (xs : List A) → In a xs → In (f a) (map f xs)
  In-map_of f a [] m = In-nil a m
  In-map_of f a (x ∷ xs) (inl e) = inl (ap f e)
  In-map_of f a (x ∷ xs) (inr m) = inr (In-map_of f a xs m)

  pub All-of_map {κ'} :
      (P : B → Type κ') (f : A → B) (xs : List A) → All P (map f xs) → All (λ x. P (f x)) xs
  All-of_map P f [] h = tt
  All-of_map P f (x ∷ xs) h = (h.0, All-of_map P f xs h.1)
