-- ===== src/Prelude/Maps.antt =====
-- `HashMap` as an association list. The order of iteration is left open by Rust: here it is the
-- order of insertion, and no theorem rests on it.
use mathlib.Core.Path.{◌≡◌, refl, sym, subst, ap, ◌∙◌}
use mathlib.Core.Logic.{inl, inr}
use mathlib.Core.Bool.{Bool, true, false}
use mathlib.Core.Option.{Option, none, some, some-injective}
use mathlib.Core.List.{List, [], ◌∷◌}
use native.Mathlib.Omega.{arith}
use trainsplorer.Prelude.Tests.{Eq, ◌==◌, ==→eq, eq→==, Bool-cases, if◌then◌else◌}
use trainsplorer.Prelude.Lists.{All, In, select, select-yes, select-no, In-select_of}

abbrev pub Map {ℓ} : Type ℓ → Type ℓ → Type ℓ
Map K V = List (K × V)

abbrev pub is_some {ℓ} : {V : Type ℓ} → Option V → Bool
is_some none = false
is_some (some _) = true

none≢some {ℓ} : {V : Type ℓ} {v : V} → none ≡ some v → ⊥
none≢some h = cc

ne_sym {ℓ} : {K : Type ℓ} ⦃e : Eq K⦄ (j k : K) → (j == k) ≡ false → (k == j) ≡ false
ne_sym ⦃e⦄ j k n = ground (arith, e.beq_iff j k, e.beq_iff k j)

module _ {ℓ} {K V : Type ℓ} ⦃e : Eq K⦄ where
  unfoldable pub get : K → Map K V → Option V
  get k [] = none
  get k ((j, v) ∷ m) = if j == k then some v else get k m

  abbrev pub contains_key : K → Map K V → Bool
  contains_key k m = is_some (get k m)

  -- `insert`, which replaces the value of a key that is there.
  unfoldable pub insert : K → V → Map K V → Map K V
  insert k v [] = (k, v) ∷ []
  insert k v ((j, w) ∷ m) = if j == k then (k, v) ∷ m else (j, w) ∷ insert k v m

  pub get-insert :
      (k j : K) (v : V) (m : Map K V) → get j (insert k v m) ≡ (if k == j then some v else get j m)
  unfolding get insert
  get-insert k j v [] = refl
  get-insert k j v ((i, w) ∷ m) =
      ground (arith, e.beq_iff k j, e.beq_iff i k, e.beq_iff i j, get-insert k j v m)

  -- No key stands twice.
  abbrev pub Unique : Map K V → Type ℓ
  Unique [] = Unit
  Unique ((k, v) ∷ m) = (get k m ≡ none) × Unique m

  pub Unique-insert : (k : K) (v : V) (m : Map K V) → Unique m → Unique (insert k v m)
  unfolding get insert
  Unique-insert k v [] h = (refl, tt)
  Unique-insert k v ((j, w) ∷ m) h = elim (Bool-cases (j == k)) [
    | inl y ↦ rw y (subst (λ i. get i m ≡ none) (==→eq j k y) h.0, h.1)
    | inr n ↦ rw n (get-insert k j v m ∙ rw (ne_sym j k n) (h.0), Unique-insert k v m h.1)
  ]

  pub All-insert {κ} :
      (Q : K × V → Type κ) (k : K) (v : V) (m : Map K V) → All Q m → Q (k, v) → All Q (insert k v m)
  unfolding insert
  All-insert Q k v [] h q = (q, tt)
  All-insert Q k v ((j, w) ∷ m) h q = elim (Bool-cases (j == k)) [
    | inl y ↦ rw y (q, h.1)
    | inr n ↦ rw n (h.0, All-insert Q k v m h.1 q)
  ]

  get-yes : (k j : K) (w : V) (m : Map K V) → (j == k) ≡ true → get k ((j, w) ∷ m) ≡ some w
  unfolding get
  get-yes k j w m h = rw h

  get-no : (k j : K) (w : V) (m : Map K V) → (j == k) ≡ false → get k ((j, w) ∷ m) ≡ get k m
  unfolding get
  get-no k j w m h = rw h

  get-nil : (k : K) (v : V) → get k [] ≡ some v → ⊥
  unfolding get
  get-nil k v h = cc

  -- The first entry of a key is what `get` finds.
  value_is :
      (k j : K) (v w : V) (m : Map K V) → (j == k) ≡ true → get k ((j, w) ∷ m) ≡ some v → w ≡ v
  value_is k j v w m y h = some-injective w v (sym (get-yes k j w m y) ∙ h)

  pub get-All {κ} :
      (Q : K × V → Type κ) (k : K) (v : V) (m : Map K V) → All Q m → get k m ≡ some v → Q (k, v)
  get-All Q k v [] h e = absurd (get-nil k v e)
  get-All Q k v ((j, w) ∷ m) h e = elim (Bool-cases (j == k)) [
    | inl y ↦
        subst (λ x. Q (k, x)) (value_is k j v w m y e) (subst (λ i. Q (i, w)) (==→eq j k y) h.0)
    | inr n ↦ get-All Q k v m h.1 (sym (get-no k j w m n) ∙ e)
  ]

  -- `retain`, by a test of the entry.
  pub get-select_none :
      (p : K × V → Bool) (k : K) (m : Map K V) → get k m ≡ none → get k (select p m) ≡ none
  unfolding get select
  get-select_none p k [] h = refl
  get-select_none p k ((j, w) ∷ m) h = ground (arith, get-select_none p k m)

  skip_first :
      (p : K × V → Bool) (k j : K) (w : V) (m : Map K V)
      → (j == k) ≡ false
      → get k (select p m) ≡ get k (select p ((j, w) ∷ m))
  unfolding get select
  skip_first p k j w m n = ground (arith)

  pub Unique-select : (p : K × V → Bool) (m : Map K V) → Unique m → Unique (select p m)
  unfolding select
  Unique-select p [] u = tt
  Unique-select p ((j, w) ∷ m) u = elim (Bool-cases (p (j, w))) [
    | inl y ↦ rw y (get-select_none p j m u.0, Unique-select p m u.1)
    | inr n ↦ rw n (Unique-select p m u.1)
  ]

  pub get-select :
      (p : K × V → Bool) (k : K) (v : V) (m : Map K V)
      → get k (select p m) ≡ some v
      → Unique m
      → (get k m ≡ some v) × (p (k, v) ≡ true)
  get-select p k v [] h u = absurd (get-nil k v (unfold select in h))
  get-select p k v ((j, w) ∷ m) h u = elim (Bool-cases (j == k)) [
    | inl y ↦ elim (Bool-cases (p (j, w))) [
      | inl q ↦
          let w_is_v : w ≡ v =
            value_is k j v w (select p m) y (ap (get k) (sym (select-yes p (j, w) m q)) ∙ h) in
          (
            get-yes k j w m y ∙ ap some w_is_v,
            subst (λ x. p (k, x) ≡ true) w_is_v (subst (λ i. p (i, w) ≡ true) (==→eq j k y) q),
          )
      | inr q ↦
          let gone : get k (select p m) ≡ none =
            get-select_none p k m (subst (λ i. get i m ≡ none) (==→eq j k y) u.0) in
          absurd (none≢some (sym gone ∙ (ap (get k) (sym (select-no p (j, w) m q)) ∙ h)))
    ]
    | inr n ↦
        let r = get-select p k v m (skip_first p k j w m n ∙ h) u.1 in (get-no k j w m n ∙ r.0, r.1)
  ]

  pub get_of_In : (k : K) (v : V) (m : Map K V) → Unique m → In (k, v) m → get k m ≡ some v
  get_of_In k v [] u m = absurd (m tt)
  get_of_In k v ((j, w) ∷ m) u (inl e) =
      let k_is_j : k ≡ j = λ i. (e i).0 in
      let v_is_w : v ≡ w = λ i. (e i).1 in
      get-yes k j w m (eq→== j k (sym k_is_j)) ∙ ap some (sym v_is_w)
  get_of_In k v ((j, w) ∷ m) u (inr h) =
      let there : get k m ≡ some v = get_of_In k v m u.1 h in
      elim (Bool-cases (j == k)) [
        | inl y ↦ absurd (none≢some (sym (subst (λ i. get i m ≡ none) (==→eq j k y) u.0) ∙ there))
        | inr n ↦ get-no k j w m n ∙ there
      ]

  pub In-of_get : (k : K) (v : V) (m : Map K V) → get k m ≡ some v → In (k, v) m
  In-of_get k v [] h = absurd (get-nil k v h)
  In-of_get k v ((j, w) ∷ m) h = elim (Bool-cases (j == k)) [
    | inl y ↦ inl (λ i. (sym (==→eq j k y) i, sym (value_is k j v w m y h) i))
    | inr n ↦ inr (In-of_get k v m (sym (get-no k j w m n) ∙ h))
  ]

  -- `retain` keeps an entry that passes the test.
  pub get-select_of :
      (p : K × V → Bool) (k : K) (v : V) (m : Map K V)
      → Unique m
      → get k m ≡ some v
      → p (k, v) ≡ true
      → get k (select p m) ≡ some v
  get-select_of p k v m u h q =
      get_of_In k v (select p m) (Unique-select p m u)
        (In-select_of p (k, v) m (In-of_get k v m h) q)
