-- ===== src/Sqlite.antt =====
-- What the crates use of SQLite beyond the meaning of their own statements: the choice of a row id
-- for an `INTEGER PRIMARY KEY` that an `INSERT` leaves out. It is a parameter; its law is that the
-- id is not in use. A table is the list of its rows.
use trainsplorer.Prelude.{
  ℕ, suc, first, none, some, ap, ◌≤◌, ◌≡◌, false, true, Bool, List, [], ◌∷◌, ◌++◌, All, All-mono,
  select, update_where, delete_where, All-select, All-append, All-update_where, In, subst, refl,
  Bool-cases, sym, In-All, ◌∙◌, inl, inr, if◌then◌else◌, arith, nat_eq, ◌==◌, ◌||◌,
}
use Prim.Native.Nat.{max}
use mathlib.Core.Option.{some-injective}

pub record Rowids : Type 0 where
  pub next : List ℕ → ℕ
  pub fresh : (ids : List ℕ) → All (λ i. (i == next ids) ≡ false) ids

pub true≢false : true ≡ false → ⊥
true≢false e = cc

largest : List ℕ → ℕ
largest [] = 0
largest (i ∷ ids) = max i (largest ids)

largest-le : (ids : List ℕ) → All (λ i. i ≤ largest ids) ids
unfolding largest
largest-le [] = tt
largest-le (i ∷ ids) = (omega arith, All-mono _ _ (λ j h. omega (arith, h)) ids (largest-le ids))

-- The law can be met: one more than the largest id in use.
unfoldable pub one_more : List ℕ → ℕ
unfolding largest
one_more ids = suc (largest ids)

pub one_more-fresh : (ids : List ℕ) → All (λ i. (i == one_more ids) ≡ false) ids
unfolding one_more
one_more-fresh ids = All-mono _ _ (λ i h. ground (arith, h)) ids (largest-le ids)

abbrev pub counting : Rowids
counting = record { next = one_more; fresh = one_more-fresh }

module _ {ℓ} {A : Type ℓ} where
  -- Some row passes the test.
  unfoldable pub any_row : (A → Bool) → List A → Bool
  any_row p [] = false
  any_row p (x ∷ xs) = p x || any_row p xs

  -- `R` holds of each row and every later one: what a `UNIQUE` constraint says.
  abbrev pub Pairwise {κ} : (A → A → Type κ) → List A → Type κ
  Pairwise R [] = Unit
  Pairwise R (x ∷ xs) = All (R x) xs × Pairwise R xs

module _ {ℓ} {A : Type ℓ} where
  pub All-of_any_row :
      (p : A → Bool) (xs : List A) → any_row p xs ≡ false → All (λ x. p x ≡ false) xs
  unfolding any_row
  All-of_any_row p [] h = tt
  All-of_any_row p (x ∷ xs) h = ground (arith, All-of_any_row p xs)

  pub any_row-of_In :
      (p : A → Bool) (a : A) (xs : List A) → In a xs → p a ≡ true → any_row p xs ≡ true
  unfolding any_row
  any_row-of_In p a [] m h = absurd (m tt)
  any_row-of_In p a (x ∷ xs) (inl e) h = rw (subst (λ y. p y ≡ true) e h)
  any_row-of_In p a (x ∷ xs) (inr m) h = ground (arith, any_row-of_In p a xs m h)

  pub In-of_any_row :
      (p : A → Bool) (xs : List A) → any_row p xs ≡ true → (a : A) × In a xs × (p a ≡ true)
  In-of_any_row p [] h = absurd (unfold any_row in cc)
  In-of_any_row p (x ∷ xs) h = elim (Bool-cases (p x)) [
    | inl y ↦ (x, inl refl, y)
    | inr n ↦ let (a, m, e) = In-of_any_row p xs (unfold any_row in ground (arith)) in (a, inr m, e)
  ]

  module _ {κ} (R : A → A → Type κ) where
    pub Pairwise-append_one :
        (xs : List A) (a : A) → Pairwise R xs → All (λ x. R x a) xs → Pairwise R (xs ++ a ∷ [])
    Pairwise-append_one [] a h k = (tt, tt)
    Pairwise-append_one (x ∷ xs) a h k =
        (All-append (R x) xs (a ∷ []) h.0 (k.0, tt), Pairwise-append_one xs a h.1 k.1)

    pub Pairwise-select : (p : A → Bool) (xs : List A) → Pairwise R xs → Pairwise R (select p xs)
    unfolding select
    Pairwise-select p [] h = tt
    Pairwise-select p (x ∷ xs) h = elim (Bool-cases (p x)) [
      | inl y ↦ rw y (All-select p (R x) xs h.0, Pairwise-select p xs h.1)
      | inr n ↦ rw n (Pairwise-select p xs h.1)
    ]

    -- An `UPDATE` that leaves alone what `R` looks at.
    pub Pairwise-update_where :
        (p : A → Bool) (f : A → A) (xs : List A)
        → ((x y : A) → R x y → R (f x) y)
        → ((x y : A) → R x y → R x (f y))
        → Pairwise R xs
        → Pairwise R (update_where p f xs)
    unfolding update_where
    Pairwise-update_where p f [] fx fy h = tt
    Pairwise-update_where p f (x ∷ xs) fx fy h = (
      All-update_where p f (R (if p x then f x else x)) xs (fy (if p x then f x else x))
          (elim (Bool-cases (p x)) [
            | inl y ↦ rw y (All-mono (R x) (R (f x)) (fx x) xs h.0)
            | inr n ↦ rw n (h.0)
          ]),
      Pairwise-update_where p f xs fx fy h.1,
    )

  pub any_row-append :
      (p : A → Bool) (xs ys : List A) → any_row p xs ≡ true → any_row p (xs ++ ys) ≡ true
  unfolding any_row
  any_row-append p [] ys h = cc
  any_row-append p (x ∷ xs) ys h = ground (arith, any_row-append p xs ys)

  pub any_row-append_last :
      (p : A → Bool) (xs : List A) (a : A) → p a ≡ true → any_row p (xs ++ a ∷ []) ≡ true
  unfolding any_row
  any_row-append_last p [] a h = rw h
  any_row-append_last p (x ∷ xs) a h = ground (arith, any_row-append_last p xs a h)

  -- A row that is not among the deleted is among the others.
  pub any_row-delete_where :
      (q p : A → Bool) (xs : List A)
      → any_row q xs ≡ true
      → any_row q (select p xs) ≡ false
      → any_row q (delete_where p xs) ≡ true
  unfolding any_row select
  any_row-delete_where q p [] h k = cc
  any_row-delete_where q p (x ∷ xs) h k = ground (arith, any_row-delete_where q p xs)

  pub any_row-update_where :
      (q p : A → Bool) (f : A → A) (xs : List A)
      → ((x : A) → q (f x) ≡ q x)
      → any_row q (update_where p f xs) ≡ any_row q xs
  unfolding any_row update_where
  any_row-update_where q p f [] same = refl
  any_row-update_where q p f (x ∷ xs) same =
      ground (arith, same x, any_row-update_where q p f xs same)

  pub any_row_none : (p : A → Bool) (xs : List A) → All (λ x. p x ≡ false) xs → any_row p xs ≡ false
  unfolding any_row
  any_row_none p [] h = refl
  any_row_none p (x ∷ xs) h = rw (h.0) (any_row_none p xs h.1)

  -- Where `R` holds of no row and itself, in either order, two rows that it does not tell apart are
  -- one.
  pub Pairwise-same :
      (R : A → A → Bool) (xs : List A) (a b : A)
      → Pairwise (λ x y. R x y ≡ false) xs
      → In a xs
      → In b xs
      → R a b ≡ true
      → R b a ≡ true
      → a ≡ b
  Pairwise-same R [] a b u ha hb k l = absurd (ha tt)
  Pairwise-same R (x ∷ xs) a b u (inl e) (inl f) k l = e ∙ sym f
  Pairwise-same R (x ∷ xs) a b u (inl e) (inr hb) k l =
      absurd
        (true≢false (sym (subst (λ y. R y b ≡ true) e k) ∙ In-All (λ y. R x y ≡ false) b xs u.0 hb))
  Pairwise-same R (x ∷ xs) a b u (inr ha) (inl f) k l =
      absurd
        (true≢false (sym (subst (λ y. R y a ≡ true) f l) ∙ In-All (λ y. R x y ≡ false) a xs u.0 ha))
  Pairwise-same R (x ∷ xs) a b u (inr ha) (inr hb) k l = Pairwise-same R xs a b u.1 ha hb k l

-- An `UPDATE` that leaves alone what a query tests changes the rows that the query finds, in place.
pub first-select-update_where {ℓ} :
    {A : Type ℓ} (p q : A → Bool) (f : A → A) (xs : List A) (a : A)
    → ((x : A) → p (f x) ≡ p x)
    → first (select p xs) ≡ some a
    → q a ≡ true
    → first (select p (update_where q f xs)) ≡ some (f a)
unfolding select update_where
first-select-update_where p q f [] a same h k = cc
first-select-update_where p q f (x ∷ xs) a same h k = elim (Bool-cases (p x)) [
  | inl y ↦
      let x_is_a : x ≡ a = some-injective x a (rw y at h) in
      let q_x : q x ≡ true = subst (λ b. q b ≡ true) (sym x_is_a) k in
      rw q_x (rw (same x) (rw y (ap (λ b. some (f b)) x_is_a)))
  | inr n ↦
      let rest = first-select-update_where p q f xs a same (rw n at h) k in
      elim (Bool-cases (q x)) [
        | inl q_x ↦ rw q_x (rw (same x) (rw n rest))
        | inr q_x ↦ rw q_x (rw n rest)
      ]
]

some≢none {ℓ} : {A : Type ℓ} {a : A} → some a ≡ none → ⊥
some≢none e = cc

-- An `INSERT` of the first row that passes a test.
pub first-select-append_none {ℓ} :
    {A : Type ℓ} (p : A → Bool) (xs : List A) (a : A)
    → first (select p xs) ≡ none
    → p a ≡ true
    → first (select p (xs ++ a ∷ [])) ≡ some a
unfolding select
first-select-append_none p [] a h k = rw k
first-select-append_none p (x ∷ xs) a h k = elim (Bool-cases (p x)) [
  | inl y ↦ absurd (some≢none (rw y at h))
  | inr n ↦ rw n (first-select-append_none p xs a (rw n at h) k)
]
