-- ===== src/Zugfuhrer/Activation/Uuids.antt =====
-- Activation answers with a train that is in the database, and forgets none.
use trainsplorer.Prelude.{
  ℕ, String, ◌≡◌, refl, sym, ap, subst, ◌∙◌, inl, inr, Bool, not, ◌&&◌, some, List, [], ◌∷◌, ◌++◌,
  All, In, In-select, In-map_of, In-append_left, In-append_right, Bool-cases, Option-cases, ltb,
  length, map, select, first, update_where, nat_eq,
}
use mathlib.Core.Option.{some-injective}
use trainsplorer.Sqlite.{Rowids, any_row}
use trainsplorer.Fahrplan.Types.{source_itps}
use trainsplorer.Zugfuhrer.Types.{Train, TrainMvt, ZugDb}
use trainsplorer.Zugfuhrer.Errors.{ok, >>=-eq-ok, ok-injective, err≢ok, from_rpc, optional}
use trainsplorer.Zugfuhrer.Store.{train_with_id, train_conflicts, insert_train, insert_mvt}
use trainsplorer.Zugfuhrer.Store.Valid.{insert_mvt-ok}
use trainsplorer.Zugfuhrer.Activation.{
  ActivationDetails, Fahrplan, runs_to, new_train, copy_mvts, set_activated, finish,
  activate_lowlevel, mvts_if_found, get_tmvts_for_schedule, activate_train_nrod,
  activate_train_darwin,
}
use trainsplorer.Zugfuhrer.Activation.Idempotent.{again, needs_copy}
use trainsplorer.Zugfuhrer.Activation.Valid.{
  finish-keeps, activate_train_nrod-keeps, activate_train_darwin-keeps,
}

abbrev pub uuids : List Train → List ℕ
uuids = map (λ t. t.tspl_id)

-- The database has a train with this UUID.
abbrev pub Knows : ℕ → ZugDb → Type 0
Knows uuid db = In uuid (uuids db.trains)

pub uuids-append : (ts us : List Train) → uuids (ts ++ us) ≡ uuids ts ++ uuids us
uuids-append [] us = refl
uuids-append (t ∷ ts) us = ap (λ l. t.tspl_id ∷ l) (uuids-append ts us)

-- An `UPDATE` that leaves the UUIDs alone.
pub uuids-update_where :
    (p : Train → Bool) (f : Train → Train) (ts : List Train)
    → ((t : Train) → (f t).tspl_id ≡ t.tspl_id)
    → uuids (update_where p f ts) ≡ uuids ts
unfolding update_where
uuids-update_where p f [] keeps = refl
uuids-update_where p f (t ∷ ts) keeps = elim (Bool-cases (p t)) [
  | inl y ↦ rw (y, keeps t, uuids-update_where p f ts keeps) refl
  | inr n ↦ rw (n, uuids-update_where p f ts keeps) refl
]

pub first-In {ℓ} : {A : Type ℓ} (l : List A) (a : A) → first l ≡ some a → In a l
first-In [] a h = absurd (cc)
first-In (x ∷ xs) a h = inl (sym (some-injective x a h))

module _ (sq : Rowids) where
  insert_train-ok :
      (db db' : ZugDb) (t : Train) (id : ℕ)
      → insert_train sq db t ≡ ok (id, db')
      → db.trains ++ record t { id = id } ∷ [] ≡ db'.trains
  unfolding insert_train
  insert_train-ok db db' t id h = elim (Bool-cases (any_row (train_conflicts t) db.trains)) [
    | inl y ↦ absurd (err≢ok (rw y at h))
    | inr n ↦
        let e = ok-injective _ (id, db') (rw n at h) in
        ap (λ i. db.trains ++ record t { id = i } ∷ []) (sym (ap (λ r. r.0) e))
        ∙ ap (λ r. r.1.trains) e
  ]

  insert_train-Knows :
      (uuid : ℕ) (db db' : ZugDb) (t : Train) (id : ℕ)
      → Knows uuid db
      → insert_train sq db t ≡ ok (id, db')
      → Knows uuid db'
  insert_train-Knows uuid db db' t id known h =
      subst (λ ts. In uuid (uuids ts)) (insert_train-ok db db' t id h)
        (subst (In uuid) (sym (uuids-append db.trains _))
          (In-append_left uuid (uuids db.trains) _ known))

  inserted-Knows :
      (db db' : ZugDb) (t : Train) (id : ℕ)
      → insert_train sq db t ≡ ok (id, db')
      → Knows t.tspl_id db'
  inserted-Knows db db' t id h =
      subst (λ ts. In t.tspl_id (uuids ts)) (insert_train-ok db db' t id h)
        (subst (In t.tspl_id) (sym (uuids-append db.trains _))
          (In-append_right t.tspl_id (uuids db.trains) (t.tspl_id ∷ []) (inl refl)))

  copy-Knows :
      (uuid : ℕ) (db db' : ZugDb) (m : TrainMvt) (tid id : ℕ)
      → Knows uuid db
      → Unit {0}
      → insert_mvt sq db (record m { parent_train = tid }) ≡ ok (id, db')
      → Knows uuid db'
  copy-Knows uuid db db' m tid id known u h =
      let (id_is, db_is, parent) = insert_mvt-ok sq db db' (record m { parent_train = tid }) id h in
      subst (Knows uuid) (sym db_is) known

  set_activated-Knows :
      (uuid tid : ℕ) (db : ZugDb) → Knows uuid db → Knows uuid (set_activated sq tid db)
  set_activated-Knows uuid tid db known =
      subst (In uuid) (sym (uuids-update_where (train_with_id tid) _ db.trains (λ t. refl))) known

  pub activate_train_nrod-Knows :
      (known_uuid : ℕ) (f : Fahrplan) (uuid : ℕ) (db : ZugDb) (uid : String) (start_date : ℕ)
      (stp : String) (source date : ℕ) (r : Train × ZugDb)
      → Knows known_uuid db
      → activate_train_nrod sq f uuid db uid start_date stp source date ≡ ok r
      → Knows known_uuid r.1
  activate_train_nrod-Knows known_uuid =
      activate_train_nrod-keeps sq (Knows known_uuid) (λ m. Unit {0}) (copy-Knows known_uuid)
        (insert_train-Knows known_uuid) (set_activated-Knows known_uuid) (λ m. tt)

  finish-tspl_id :
      (db : ZugDb) (t : Train) (ms : List TrainMvt) (r : Train × ZugDb)
      → finish sq db t ms ≡ ok r
      → r.0.tspl_id ≡ t.tspl_id
  unfolding finish
  finish-tspl_id db t ms r h = elim (Bool-cases (not t.activated && ltb 0 (length ms))) [
    | inr n ↦ ap (λ q. q.0.tspl_id) (sym (ok-injective _ r (rw n at h)))
    | inl y ↦
        let (db1, h1, h2) = >>=-eq-ok (copy_mvts sq db t.id ms) _ (rw y at h) in
        ap (λ q. q.0.tspl_id) (sym (ok-injective _ r h2))
  ]

  all_units : (ms : List TrainMvt) → All (λ m. Unit {0}) ms
  all_units [] = tt
  all_units (m ∷ ms) = (tt, all_units ms)

  finish-returns :
      (db : ZugDb) (t : Train) (ms : List TrainMvt) (r : Train × ZugDb)
      → Knows t.tspl_id db
      → finish sq db t ms ≡ ok r
      → Knows r.0.tspl_id r.1
  finish-returns db t ms r known h =
      subst (λ u. Knows u r.1) (sym (finish-tspl_id db t ms r h))
        (finish-keeps sq (Knows t.tspl_id) (λ m. Unit {0}) (copy-Knows t.tspl_id)
          (insert_train-Knows t.tspl_id) (set_activated-Knows t.tspl_id) (λ m. tt) db t ms r known
          (all_units ms) h)

  activate_lowlevel-returns :
      (uuid : ℕ) (db : ZugDb) (ad : ActivationDetails) (ms : List TrainMvt) (r : Train × ZugDb)
      → activate_lowlevel sq uuid db ad ms ≡ ok r
      → Knows r.0.tspl_id r.1
  unfolding activate_lowlevel
  activate_lowlevel-returns uuid db ad ms r h =
      elim (Option-cases (first (select (runs_to ad) db.trains))) [
        | inl e ↦
            let ((id, db1), h1, h2) =
              >>=-eq-ok (insert_train sq db (new_train uuid ad)) _
                (rw (e, activate_lowlevel) at h) in
            finish-returns db1 (record (new_train uuid ad) { id = id }) ms r
              (inserted-Knows db db1 (new_train uuid ad) id h1) h2
        | inr (t, e) ↦
            let there : Knows t.tspl_id db =
              In-map_of (λ (x : Train). x.tspl_id) t db.trains
                (In-select (runs_to ad) t db.trains (first-In _ t e)).0 in
            elim (Bool-cases (not t.activated && ltb 0 (length ms))) [
              | inl y ↦ finish-returns db t ms r there (sym (needs_copy sq uuid ad ms db t e y) ∙ h)
              | inr n ↦
                  subst (λ q. Knows q.0.tspl_id q.1)
                    (ok-injective _ r (sym (again sq uuid ad ms db t e n) ∙ h)) there
            ]
      ]

  pub activate_train_nrod-returns :
      (f : Fahrplan) (uuid : ℕ) (db : ZugDb) (uid : String) (start_date : ℕ) (stp : String)
      (source date : ℕ) (r : Train × ZugDb)
      → activate_train_nrod sq f uuid db uid start_date stp source date ≡ ok r
      → Knows r.0.tspl_id r.1
  unfolding activate_train_nrod
  activate_train_nrod-returns f uuid db uid start_date stp source date r h =
      let (sched, h1, g) =
        >>=-eq-ok (optional (from_rpc (f.for_activation uid start_date stp source))) _ h in
      let (ms, h2, h3) = >>=-eq-ok (mvts_if_found sq f sched) _ g in
      activate_lowlevel-returns uuid db _ ms r h3

  pub activate_train_darwin-Knows :
      (known_uuid : ℕ) (f : Fahrplan) (uuid : ℕ) (db : ZugDb) (uid : String) (run_date : ℕ)
      (r : Train × ZugDb)
      → Knows known_uuid db
      → activate_train_darwin sq f uuid db uid run_date ≡ ok r
      → Knows known_uuid r.1
  activate_train_darwin-Knows known_uuid =
      activate_train_darwin-keeps sq (Knows known_uuid) (λ m. Unit {0}) (copy-Knows known_uuid)
        (insert_train-Knows known_uuid) (set_activated-Knows known_uuid) (λ m. tt)

  pub activate_train_darwin-returns :
      (f : Fahrplan) (uuid : ℕ) (db : ZugDb) (uid : String) (run_date : ℕ) (r : Train × ZugDb)
      → activate_train_darwin sq f uuid db uid run_date ≡ ok r
      → Knows r.0.tspl_id r.1
  unfolding activate_train_darwin
  activate_train_darwin-returns f uuid db uid run_date r h =
      let (sched, h1, g) = >>=-eq-ok (from_rpc (f.by_uid_on_date uid run_date source_itps)) _ h in
      let (ms, h2, h3) = >>=-eq-ok (get_tmvts_for_schedule sq f sched) _ g in
      activate_lowlevel-returns uuid db _ ms r h3
