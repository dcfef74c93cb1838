-- ===== src/Prelude/Unique.antt =====
-- A list has one sorted rearrangement, where the order tells its elements apart.
use mathlib.Core.Path.{◌≡◌, refl, sym, ap, subst, ◌∙◌}
use mathlib.Core.Logic.{∥∥₁_elim}
use mathlib.Core.Bool.{Bool, Bool-set, true, false, not, ◌&&◌, ◌||◌}
use mathlib.Core.List.{List, [], ◌∷◌, Perm}
use mathlib.Core.List.Perm
use mathlib.Core.List.{cons≢nil}
use mathlib.Core.List.{Permᴰ}
use native.Mathlib.Omega.{arith}
use trainsplorer.Prelude.Lists.{All, All-mono}
use trainsplorer.Prelude.Sorting.{IsSorted}

all {ℓ} : {A : Type ℓ} → (A → Bool) → List A → Bool
all p [] = true
all p (x ∷ xs) = p x && all p xs

all-Permᴰ {ℓ} : {A : Type ℓ} (p : A → Bool) {xs ys : List A} → Permᴰ xs ys → all p xs ≡ all p ys
unfolding all
all-Permᴰ p Permᴰ.nil = refl
all-Permᴰ p (Permᴰ.cons e d) = let rest = all-Permᴰ p d in rw (e, rest) refl
all-Permᴰ p (Permᴰ.swap {a} {b} {a'} {b'} {l} e₁ e₂) = rw (e₁, e₂) (swapped (p b') (p a') (all p l))
  where
    swapped : (x y z : Bool) → (x && (y && z)) ≡ (y && (x && z))
    swapped x y z = ground arith
all-Permᴰ p (Permᴰ.trans d₁ d₂) = all-Permᴰ p d₁ ∙ all-Permᴰ p d₂

All-of_all {ℓ} :
    {A : Type ℓ} (p : A → Bool) (xs : List A) → all p xs ≡ true → All (λ x. p x ≡ true) xs
unfolding all
All-of_all p [] h = tt
All-of_all p (x ∷ xs) h = ground (arith, All-of_all p xs)

all-of_All {ℓ} :
    {A : Type ℓ} (p : A → Bool) (xs : List A) → All (λ x. p x ≡ true) xs → all p xs ≡ true
unfolding all
all-of_All p [] h = refl
all-of_All p (x ∷ xs) h = rw (h.0) (all-of_All p xs h.1)

-- What a test says of all elements, it says of them in any order.
pub All-Perm {ℓ} :
    {A : Type ℓ} (p : A → Bool) {xs ys : List A}
    → Perm xs ys
    → All (λ x. p x ≡ true) xs
    → All (λ x. p x ≡ true) ys
All-Perm p {xs} {ys} d h =
    All-of_all p ys
      (∥∥₁_elim d (Bool-set (all p ys) true) (λ e. sym (all-Permᴰ p e) ∙ all-of_All p xs h))

module _ {ℓ} {A : Type ℓ} (lt same : A → A → Bool) where
  abbrev pub tells_apart : A → A → Bool
  tells_apart a b = lt a b || (lt b a || same a b)

  -- Of any two of the elements, one is before the other or they are the same.
  abbrev pub AllTold : List A → Type 0
  AllTold l = All (λ a. All (λ b. tells_apart a b ≡ true) l) l

module _ {ℓ} {A : Type ℓ} (lt : A → A → Bool) (irrefl : (a : A) → lt a a ≡ false)
    (not_before : (a b c : A) → lt b a ≡ false → lt c b ≡ false → lt c a ≡ false)
    (same : A → A → Bool) (same_eq : (a b : A) → same a b ≡ true → a ≡ b) where
  first_least :
      (x : A) (xs : List A) → IsSorted lt (x ∷ xs) → All (λ z. not (lt z x) ≡ true) (x ∷ xs)
  first_least x [] h = (ap not (irrefl x), tt)
  first_least x (y ∷ ys) h = (
    ap not (irrefl x),
    All-mono _ _ (λ z k. ap not (not_before x y z h.0 (ground (arith, k)))) (y ∷ ys)
        (first_least y ys h.1),
  )

  IsSorted-tail : (x : A) (xs : List A) → IsSorted lt (x ∷ xs) → IsSorted lt xs
  IsSorted-tail x [] h = tt
  IsSorted-tail x (y ∷ ys) h = h.1

  told_same :
      (a b : A) → tells_apart lt same a b ≡ true → lt a b ≡ false → lt b a ≡ false → same a b ≡ true
  told_same a b h k l = ground (arith, h, k, l)

  pub sorted_unique :
      (xs ys : List A) → Perm xs ys → IsSorted lt xs → IsSorted lt ys → AllTold lt same xs → xs ≡ ys
  sorted_unique [] ys d s t k = sym (Perm.eq-nil (Perm.symm d))
  sorted_unique (x ∷ xs) [] d s t k = absurd (cons≢nil (Perm.eq-nil d))
  sorted_unique (x ∷ xs) (y ∷ ys) d s t k =
      let back = All-Perm (λ z. not (lt z y)) (Perm.symm d) (first_least y ys t) in
      let forth = All-Perm (λ z. not (lt z x)) d (first_least x xs s) in
      let told = All-Perm (tells_apart lt same x) d k.0 in
      let head : x ≡ y =
        same_eq x y (told_same x y told.0 (ground (arith, back.0)) (ground (arith, forth.0))) in
      let tail : Perm xs ys = Perm.cons_inv (subst (λ z. Perm (x ∷ xs) (z ∷ ys)) (sym head) d) in
      ap (λ z. z ∷ xs) head
      ∙ ap (λ l. y ∷ l)
          (sorted_unique xs ys tail (IsSorted-tail x xs s) (IsSorted-tail y ys t)
            (All-mono _ _ (λ a r. r.1) xs k.1))
