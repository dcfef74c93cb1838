-- ===== src/Zugfuhrer/App/Sound.antt =====
-- The requests of tspl-zugfuhrer/src/ctx.rs keep the train database sound.
use trainsplorer.Prelude.{
  ℕ, String, ◌≡◌, ◌⊎◌, refl, sym, ap, subst, inl, inr, Bool, true, not, ◌&&◌, ◌||◌, none, some, All,
  All-append, All-select, nat_eq, ◌==◌, Bool-cases, length, select,
}
use trainsplorer.Prelude.Maps.{is_some}
use trainsplorer.Sqlite.{Rowids, any_row}
use trainsplorer.Zugfuhrer.Types.{
  Train, TrainMvt, ZugDb, DarwinMvtUpdate, TrustMvtUpdate, source_sched_itps,
}
use trainsplorer.Zugfuhrer.Errors.{ZugError, ZugResult, ok, err, ok-injective, err≢ok}
use trainsplorer.Zugfuhrer.Store.{
  train_with_id, with_tspl_id, train_conflicts, delete_mvts, update_trains, insert_train,
  insert_mvt,
}
use trainsplorer.Zugfuhrer.Store.Valid.{
  IsValid, cascade-keeps, insert_mvt-ok, insert_train-IsValid, update_where-IsValid,
}
use trainsplorer.Zugfuhrer.Activation.{Fahrplan, set_activated, activate_train_darwin}
use trainsplorer.Zugfuhrer.Activation.Valid.{
  activate_train_darwin-keeps, activate_train_nrod-keeps, copy-IsValid, set_activated-IsValid,
}
use trainsplorer.Zugfuhrer.App.{
  App, train_activation, darwin_mvt, trust_mvt, darwin_update_of, train_mvt,
  process_darwin_mvt_update, process_trust_mvt_update, activate_train, set_rid,
  activate_train_darwin_rid, update_by_tspl_id,
}
use trainsplorer.Zugfuhrer.App.Updates.{
  darwin_transaction-ok, trust_transaction-ok, darwin_transaction-IsValid,
  trust_transaction-IsValid,
}
use trainsplorer.Zugfuhrer.App.Updates.Outcome.{commit-keeps}

-- A movement that updates nothing comes from the schedule.
abbrev pub leads : TrainMvt → Bool
leads m = is_some m.updates || m.source == source_sched_itps

pub record IsSound (db : ZugDb) : Type 0 where
  pub valid : IsValid db
  pub grounded : All (λ m. leads m ≡ true) db.movements

delete_mvts-grounded :
    (p : TrainMvt → Bool) (db : ZugDb)
    → All (λ m. leads m ≡ true) db.movements
    → All (λ m. leads m ≡ true) (delete_mvts p db).movements
unfolding delete_mvts
delete_mvts-grounded p db h =
    cascade-keeps (All (λ m. leads m ≡ true)) (λ gone l k. All-select _ _ l k) (length db.movements)
      _ _ (All-select _ _ db.movements h)

pub ZugResult-cases {ℓ} :
    {A : Type ℓ} (r : ZugResult A) → ((a : A) × (r ≡ ok a)) ⊎ ((e : ZugError) × (r ≡ err e))
ZugResult-cases (ok a) = inl (a, refl)
ZugResult-cases (err e) = inr (e, refl)

update_trains-IsSound :
    (p : Train → Bool) (f : Train → Train) (db db' : ZugDb)
    → ((t : Train) → (f t).id ≡ t.id)
    → IsSound db
    → update_trains p f db ≡ ok db'
    → IsSound db'
unfolding update_trains
update_trains-IsSound p f db db' keeps s h =
    elim (Bool-cases (
      any_row (λ t. p t && any_row (λ u. not (u.id == t.id) && train_conflicts (f t) u) db.trains)
        db.trains)) [
          | inl y ↦ absurd (err≢ok (rw y at h))
          | inr n ↦
              subst IsSound (ok-injective _ db' (rw n at h)) (record {
                valid = update_where-IsValid p f db keeps s.valid;
                grounded = s.grounded;
              })
        ]

module _ (sq : Rowids) where
  insert_mvt-grounded :
      (db db' : ZugDb) (m : TrainMvt) (id : ℕ)
      → All (λ m. leads m ≡ true) db.movements
      → leads m ≡ true
      → insert_mvt sq db m ≡ ok (id, db')
      → All (λ m. leads m ≡ true) db'.movements
  insert_mvt-grounded db db' m id g l h =
      let (id_is, db_is, parent) = insert_mvt-ok sq db db' m id h in
      subst (λ (d : ZugDb). All (λ m. leads m ≡ true) d.movements) (sym db_is)
        (All-append _ db.movements _ g (l, tt))

  copy-IsSound :
      (db db' : ZugDb) (m : TrainMvt) (tid id : ℕ)
      → IsSound db
      → (m.updates ≡ none) × (leads m ≡ true)
      → insert_mvt sq db (record m { parent_train = tid }) ≡ ok (id, db')
      → IsSound db'
  copy-IsSound db db' m tid id s o h = record {
    valid = copy-IsValid sq db db' m tid id s.valid o.0 h;
    grounded = insert_mvt-grounded db db' (record m { parent_train = tid }) id s.grounded o.1 h;
  }

  insert_train-movements :
      (db db' : ZugDb) (t : Train) (id : ℕ)
      → insert_train sq db t ≡ ok (id, db')
      → db.movements ≡ db'.movements
  unfolding insert_train
  insert_train-movements db db' t id h = elim (Bool-cases (any_row (train_conflicts t) db.trains)) [
    | inl y ↦ absurd (err≢ok (rw y at h))
    | inr n ↦ ap (λ r. r.1.movements) (ok-injective _ (id, db') (rw n at h))
  ]

  insert_train-IsSound :
      (db db' : ZugDb) (t : Train) (id : ℕ)
      → IsSound db
      → insert_train sq db t ≡ ok (id, db')
      → IsSound db'
  insert_train-IsSound db db' t id s h = record {
    valid = insert_train-IsValid sq db db' t id s.valid h;
    grounded = subst (All (λ m. leads m ≡ true)) (insert_train-movements db db' t id h) s.grounded;
  }

  set_activated-IsSound : (tid : ℕ) (db : ZugDb) → IsSound db → IsSound (set_activated sq tid db)
  set_activated-IsSound tid db s = record {
    valid = set_activated-IsValid sq tid db s.valid;
    grounded = s.grounded;
  }

  set_rid-IsSound :
      (f : Fahrplan) (app : App) (rid : String) (r : Train × ZugDb)
      → IsSound r.1
      → IsSound (set_rid sq f app rid r).1.db
  unfolding set_rid
  set_rid-IsSound f app rid (ret, db) s =
      elim (ZugResult-cases
        (update_trains (train_with_id ret.id) (λ t. record t { darwin_rid = some rid }) db)) [
          | inl (db', e) ↦ rw (e, set_rid) (update_trains-IsSound _ _ db db' (λ t. refl) s e)
          | inr (x, e) ↦ rw (e, set_rid) s
        ]

  pub activate_train_darwin_rid-IsSound :
      (f : Fahrplan) (uuid : ℕ) (app : App) (uid : String) (date : ℕ) (rid : String)
      → IsSound app.db
      → IsSound (activate_train_darwin_rid sq f uuid app uid date rid).1.db
  unfolding activate_train_darwin_rid
  activate_train_darwin_rid-IsSound f uuid app uid date rid s =
      elim (ZugResult-cases (activate_train_darwin sq f uuid app.db uid date)) [
        | inl (r, e) ↦
            rw (e, activate_train_darwin_rid)
              (set_rid-IsSound f app rid r (
                activate_train_darwin-keeps sq IsSound (λ m. (m.updates ≡ none) × (leads m ≡ true))
                  copy-IsSound insert_train-IsSound set_activated-IsSound (λ m. (refl, refl)) f uuid
                  app.db uid date r s e))
        | inr (x, e) ↦ rw (e, activate_train_darwin_rid) s
      ]

  pub activate_train-IsSound :
      (f : Fahrplan) (uuid : ℕ) (app : App) (uid : String) (start_date : ℕ) (stp : String)
      (source date : ℕ)
      → IsSound app.db
      → IsSound (activate_train sq f uuid app uid start_date stp source date).1.db
  unfolding activate_train
  activate_train-IsSound f uuid app uid start_date stp source date s =
      commit-keeps IsSound app train_activation _ s λ r.
        activate_train_nrod-keeps sq IsSound (λ m. (m.updates ≡ none) × (leads m ≡ true))
          copy-IsSound insert_train-IsSound set_activated-IsSound (λ m. (refl, refl)) f uuid app.db
          uid start_date stp source date r s

  pub darwin-IsSound :
      (app : App) (tid : ℕ) (upd : DarwinMvtUpdate)
      → IsSound app.db
      → IsSound (process_darwin_mvt_update sq app tid upd).1.db
  unfolding process_darwin_mvt_update
  darwin-IsSound app tid upd s = commit-keeps IsSound app train_mvt _ s λ r h.
      let (train, t, found, there, target, inserted, is) =
        darwin_transaction-ok sq app.db tid upd r h in
      record {
        valid = darwin_transaction-IsValid sq app.db tid upd r s.valid h;
        grounded =
            insert_mvt-grounded (delete_mvts (darwin_update_of t.id) app.db) r.1
              (darwin_mvt train t upd) r.0.id
              (delete_mvts-grounded (darwin_update_of t.id) app.db s.grounded) refl inserted;
      }

  pub trust-IsSound :
      (app : App) (tid : ℕ) (upd : TrustMvtUpdate)
      → IsSound app.db
      → IsSound (process_trust_mvt_update sq app tid upd).1.db
  unfolding process_trust_mvt_update
  trust-IsSound app tid upd s = commit-keeps IsSound app train_mvt _ s λ r h.
      let (train, t, found, there, target, inserted, is) =
        trust_transaction-ok sq app.db tid upd r h in
      record {
        valid = trust_transaction-IsValid sq app.db tid upd r s.valid h;
        grounded =
            insert_mvt-grounded app.db r.1 (trust_mvt train t upd) r.0.id s.grounded refl inserted;
      }

pub update_by_tspl_id-IsSound :
    (f : Train → Train) (app : App) (tid : ℕ)
    → ((t : Train) → (f t).id ≡ t.id)
    → IsSound app.db
    → IsSound (update_by_tspl_id f app tid).1.db
unfolding update_by_tspl_id
update_by_tspl_id-IsSound f app tid keeps s =
    elim (ZugResult-cases (update_trains (with_tspl_id tid) f app.db)) [
      | inr (x, e) ↦ rw (e, update_by_tspl_id) s
      | inl (db', e) ↦
          let s' = update_trains-IsSound (with_tspl_id tid) f app.db db' keeps s e in
          elim (Bool-cases (length (select (with_tspl_id tid) app.db.trains) == 0)) [
            | inl y ↦ rw (e, y, update_by_tspl_id) s'
            | inr n ↦ rw (e, n, update_by_tspl_id) s'
          ]
    ]
