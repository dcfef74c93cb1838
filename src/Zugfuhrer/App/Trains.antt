-- ===== src/Zugfuhrer/App/Trains.antt =====
-- TRUST ids, of tspl-zugfuhrer/src/ctx.rs.
use trainsplorer.Prelude.{
  ℕ, String, ◌≡◌, ◌⊎◌, refl, sym, ap, subst, ◌∙◌, inl, inr, Bool, true, false, not, ◌&&◌, some,
  List, [], ◌∷◌, All, In, In-All, In-nil, In-select, arith, nat_eq, string_eq, ◌==◌, eq→==,
  Bool-cases, if◌then◌else◌, length, select, select-yes, select-no, first, update_where,
}
use trainsplorer.Chrono.{Chrono}
use mathlib.Core.Option.{some-injective}
use trainsplorer.Sqlite.{true≢false, any_row, Pairwise, Pairwise-same, All-of_any_row}
use trainsplorer.Zugfuhrer.Types.{Train, ZugDb}
use trainsplorer.Zugfuhrer.Errors.{
  ZugResult, ZugError, ok, err, ok_or, ok-injective, err≢ok, not_found,
}
use trainsplorer.Zugfuhrer.Store.{with_tspl_id, train_conflicts, update_trains}
use trainsplorer.Zugfuhrer.App.{
  App, update_by_tspl_id, associate_trust_id, trust_id_on, get_train_for_trust_id,
}

-- The only row that passes a test is the first that does.
first-select_only {ℓ} :
    {A : Type ℓ} (p : A → Bool) (xs : List A) (a : A)
    → In a xs
    → p a ≡ true
    → ((b : A) → In b xs → p b ≡ true → b ≡ a)
    → first (select p xs) ≡ some a
first-select_only p [] a m h only = In-nil a m
first-select_only p (x ∷ xs) a m h only = elim (Bool-cases (p x)) [
  | inl y ↦ ap first (select-yes p x xs y) ∙ ap (λ b. some b) (only x (inl refl) y)
  | inr n ↦
      ap first (select-no p x xs n) ∙ first-select_only p xs a (later n m) h (λ b i. only b (inr i))
]
  where
    later : p x ≡ false → In a (x ∷ xs) → In a xs
    later n (inl e) = absurd (true≢false (sym h ∙ ap p e ∙ n))
    later n (inr i) = i

update_where-cons {ℓ} :
    {A : Type ℓ} (p : A → Bool) (f : A → A) (x : A) (xs : List A)
    → update_where p f (x ∷ xs) ≡ (if p x then f x else x) ∷ update_where p f xs
unfolding update_where
update_where-cons p f x xs = refl

In-update_where {ℓ} :
    {A : Type ℓ} (p : A → Bool) (f : A → A) (b : A) (xs : List A)
    → In b (update_where p f xs)
    → (u : A) × In u xs × (b ≡ (if p u then f u else u))
In-update_where p f b [] m = unfold update_where in In-nil b m
In-update_where p f b (x ∷ xs) m = elim (subst (In b) (update_where-cons p f x xs) m) [
  | inl e ↦ (x, inl refl, e)
  | inr i ↦ let (u, j, e) = In-update_where p f b xs i in (u, inr j, e)
]

In-update_where_of {ℓ} :
    {A : Type ℓ} (p : A → Bool) (f : A → A) (u : A) (xs : List A)
    → In u xs
    → p u ≡ true
    → In (f u) (update_where p f xs)
unfolding update_where
In-update_where_of p f u [] m h = In-nil u m
In-update_where_of p f u (x ∷ xs) (inl e) h =
    inl (ap f e ∙ sym (rw (subst (λ y. p y ≡ true) e h) refl))
In-update_where_of p f u (x ∷ xs) (inr m) h = inr (In-update_where_of p f u xs m h)

first-In {ℓ} : {A : Type ℓ} (l : List A) (a : A) → first l ≡ some a → In a l
first-In [] a h = cc
first-In (x ∷ xs) a h = inl (sym (some-injective x a h))

-- The keys of `trains`: no two rows have the same id, or the same UUID.
pub record HasKeys (trains : List Train) : Type 0 where
  pub ids : Pairwise (λ (s : Train) t. (s.id == t.id) ≡ false) trains
  pub uuids : Pairwise (λ (s : Train) t. (s.tspl_id == t.tspl_id) ≡ false) trains

abbrev with_trust_id : String → Train → Train
with_trust_id trust_id t = record t { trust_id = some trust_id }

-- `UNIQUE (date, trust_id)` lets the update of a train pass only if no other train has the id on
-- the same date.
abbrev pub in_the_way : String → List Train → Train → Bool
in_the_way trust_id trains t =
    any_row (λ u. not (u.id == t.id) && train_conflicts (with_trust_id trust_id t) u) trains

ZugResult-cases {ℓ} :
    {A : Type ℓ} (m : ZugResult A) → ((a : A) × (m ≡ ok a)) ⊎ ((e : ZugError) × (m ≡ err e))
ZugResult-cases (ok a) = inl (a, refl)
ZugResult-cases (err e) = inr (e, refl)

update_trains-ok :
    (p : Train → Bool) (f : Train → Train) (db db' : ZugDb)
    → update_trains p f db ≡ ok db'
    → (db'.trains ≡ update_where p f db.trains)
      × All
          (λ t.
            (p t && any_row (λ u. not (u.id == t.id) && train_conflicts (f t) u) db.trains) ≡ false)
          db.trains
unfolding update_trains
update_trains-ok p f db db' h =
    elim (Bool-cases (
      any_row (λ t. p t && any_row (λ u. not (u.id == t.id) && train_conflicts (f t) u) db.trains)
        db.trains)) [
          | inl y ↦ absurd (err≢ok (rw y at h))
          | inr n ↦ (
            ap (λ d. d.trains) (sym (ok-injective _ db' (rw n at h))),
            All-of_any_row _ db.trains n,
          )
        ]

associate_trust_id-ok :
    (app : App) (tid : ℕ) (trust_id : String)
    → (associate_trust_id app tid trust_id).0 ≡ ok tt
    → ((associate_trust_id app tid trust_id).1.db.trains
        ≡ update_where (with_tspl_id tid) (with_trust_id trust_id) app.db.trains)
      × All (λ t. (with_tspl_id tid t && in_the_way trust_id app.db.trains t) ≡ false) app.db.trains
unfolding associate_trust_id
associate_trust_id-ok app tid trust_id h =
    elim (ZugResult-cases (update_trains (with_tspl_id tid) (with_trust_id trust_id) app.db)) [
      | inr (e, failed) ↦ absurd (err≢ok (rw (failed, update_by_tspl_id) at h))
      | inl (db', done) ↦
          let (trains_is, free) =
            update_trains-ok (with_tspl_id tid) (with_trust_id trust_id) app.db db' done in
          elim (Bool-cases (length (select (with_tspl_id tid) app.db.trains) == 0)) [
            | inl z ↦ absurd (err≢ok (rw (z) at (rw (done, update_by_tspl_id) at h)))
            | inr z ↦ (rw (done, update_by_tspl_id) (rw z trains_is), free)
          ]
    ]

-- A row that the new id of `t` conflicts with is `t`.
conflicting-same :
    (trust_id : String) (trains : List Train) (t u : Train)
    → HasKeys trains
    → In t trains
    → In u trains
    → in_the_way trust_id trains t ≡ false
    → train_conflicts (with_trust_id trust_id t) u ≡ true
    → u ≡ t
conflicting-same trust_id trains t u keys t_there u_there free clash =
    let same_id : (u.id == t.id) ≡ true = ground (
      arith,
      clash,
      In-All (λ v. (not (v.id == t.id) && train_conflicts (with_trust_id trust_id t) v) ≡ false) u
          trains (All-of_any_row _ trains free) u_there,
    ) in
    Pairwise-same (λ r s. r.id == s.id) trains u t keys.ids u_there t_there same_id
      (ground (arith, same_id))

trust_id_on-conflicts :
    (c : Chrono) (trust_id : String) (t u : Train)
    → u.crosses_midnight ≡ false
    → trust_id_on c trust_id t.date u ≡ true
    → train_conflicts (with_trust_id trust_id t) u ≡ true
trust_id_on-conflicts c trust_id t u same_day h = ground (arith, same_day, h)

-- After the update, only the updated train has the TRUST id on its date.
only_with_trust_id :
    (c : Chrono) (app : App) (tid : ℕ) (trust_id : String) (t : Train)
    → HasKeys app.db.trains
    → All (λ u. u.crosses_midnight ≡ false) app.db.trains
    → In t app.db.trains
    → with_tspl_id tid t ≡ true
    → All (λ u. (with_tspl_id tid u && in_the_way trust_id app.db.trains u) ≡ false) app.db.trains
    → (b : Train) → In b (update_where (with_tspl_id tid) (with_trust_id trust_id) app.db.trains)
    → trust_id_on c trust_id t.date b ≡ true
    → b ≡ with_trust_id trust_id t
only_with_trust_id c app tid trust_id t keys same_day there has_uuid free b m p =
    let (u, u_there, b_is) =
      In-update_where (with_tspl_id tid) (with_trust_id trust_id) b app.db.trains m in
    elim (Bool-cases (with_tspl_id tid u)) [
      | inl y ↦
          (b_is ∙ rw y refl)
          ∙ ap (with_trust_id trust_id) (
              Pairwise-same (λ r s. r.tspl_id == s.tspl_id) app.db.trains u t keys.uuids u_there
                there (ground (arith, y, has_uuid)) (ground (arith, y, has_uuid)))
      | inr n ↦
          let b_is_u : b ≡ u = b_is ∙ rw n refl in
          let u_is_t =
            conflicting-same trust_id app.db.trains t u keys there u_there
              (ground (
                arith,
                has_uuid,
                In-All (λ v. (with_tspl_id tid v && in_the_way trust_id app.db.trains v) ≡ false) t
                    app.db.trains free there,
              ))
              (trust_id_on-conflicts c trust_id t u
                (In-All (λ v. v.crosses_midnight ≡ false) u app.db.trains same_day u_there)
                (subst (λ v. trust_id_on c trust_id t.date v ≡ true) b_is_u p)) in
          absurd (true≢false (sym has_uuid ∙ sym (ap (with_tspl_id tid) u_is_t) ∙ n))
    ]

-- Where the ids and the UUIDs of the trains are unique and no train is marked as crossing midnight, a
-- train that was given a TRUST id without an error is then found by it, on the date that it runs.
pub associate_trust_id-lookup :
    (c : Chrono) (app : App) (tid : ℕ) (trust_id : String) (t : Train)
    → HasKeys app.db.trains
    → All (λ u. u.crosses_midnight ≡ false) app.db.trains
    → first (select (with_tspl_id tid) app.db.trains) ≡ some t
    → (associate_trust_id app tid trust_id).0 ≡ ok tt
    → get_train_for_trust_id c (associate_trust_id app tid trust_id).1.db trust_id t.date
      ≡ ok (record t { trust_id = some trust_id })
unfolding get_train_for_trust_id
associate_trust_id-lookup c app tid trust_id t keys same_day found h =
    let (trains_is, free) = associate_trust_id-ok app tid trust_id h in
    let (there, has_uuid) = In-select (with_tspl_id tid) t app.db.trains (first-In _ t found) in
    ap (λ l. ok_or (first (select (trust_id_on c trust_id t.date) l)) not_found) trains_is
    ∙ ap (λ o. ok_or o not_found)
        (first-select_only (trust_id_on c trust_id t.date) _ (with_trust_id trust_id t)
          (In-update_where_of (with_tspl_id tid) (with_trust_id trust_id) t app.db.trains there
            has_uuid)
          (ground (arith, eq→== trust_id trust_id refl))
          (only_with_trust_id c app tid trust_id t keys same_day there has_uuid free))
