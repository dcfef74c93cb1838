-- ===== src/Zugfuhrer/App/Uuids.antt =====
-- No request of tspl-zugfuhrer/src/ctx.rs makes it forget a train.
use trainsplorer.Prelude.{
  ap, some, string_eq, ℕ, String, ◌≡◌, refl, sym, subst, inl, inr, Bool, not, ◌&&◌, In, In-select,
  In-map_of, Bool-cases, Option-cases, nat_eq, ◌==◌, length, select, first,
}
use trainsplorer.Chrono.{Chrono}
use trainsplorer.Sqlite.{Rowids, any_row}
use trainsplorer.Zugfuhrer.Types.{Train, TrainMvt, DarwinMvtUpdate, TrustMvtUpdate, ZugDb}
use trainsplorer.Zugfuhrer.Errors.{ok, ok-injective, err≢ok}
use trainsplorer.Zugfuhrer.Store.{
  sql_eq, train_with_id, with_tspl_id, train_conflicts, update_trains, delete_mvts,
}
use trainsplorer.Zugfuhrer.Store.Valid.{insert_mvt-ok}
use trainsplorer.Zugfuhrer.Activation.{Fahrplan, activate_train_darwin}
use trainsplorer.Zugfuhrer.Activation.Uuids.{
  Knows, uuids-update_where, first-In, activate_train_nrod-Knows, activate_train_nrod-returns,
  activate_train_darwin-Knows, activate_train_darwin-returns,
}
use trainsplorer.Zugfuhrer.App.{
  App, train_mvt, train_activation, trust_mvt, darwin_mvt, darwin_update_of,
  process_darwin_mvt_update, set_rid, activate_train_darwin_rid, get_train_for_darwin_rid,
  process_trust_mvt_update, activate_train, update_by_tspl_id, terminate_train, cancel_train,
  associate_trust_id, trust_id_on, get_train_for_trust_id,
}
use trainsplorer.Zugfuhrer.App.Updates.{trust_transaction-ok, darwin_transaction-ok}
use trainsplorer.Zugfuhrer.App.Updates.Outcome.{commit-keeps, commit-ok}
use trainsplorer.Zugfuhrer.App.Sound.{ZugResult-cases}

update_trains-Knows :
    (uuid : ℕ) (p : Train → Bool) (f : Train → Train) (db db' : ZugDb)
    → ((t : Train) → (f t).tspl_id ≡ t.tspl_id)
    → Knows uuid db
    → update_trains p f db ≡ ok db'
    → Knows uuid db'
unfolding update_trains
update_trains-Knows uuid p f db db' keeps known h =
    elim (Bool-cases (
      any_row (λ t. p t && any_row (λ u. not (u.id == t.id) && train_conflicts (f t) u) db.trains)
        db.trains)) [
          | inl y ↦ absurd (err≢ok (rw y at h))
          | inr n ↦
              subst (Knows uuid) (ok-injective _ db' (rw n at h))
                (subst (In uuid) (sym (uuids-update_where p f db.trains keeps)) known)
        ]

update_by_tspl_id-Knows :
    (uuid : ℕ) (f : Train → Train) (app : App) (tid : ℕ)
    → ((t : Train) → (f t).tspl_id ≡ t.tspl_id)
    → Knows uuid app.db
    → Knows uuid (update_by_tspl_id f app tid).1.db
unfolding update_by_tspl_id
update_by_tspl_id-Knows uuid f app tid keeps known =
    elim (ZugResult-cases (update_trains (with_tspl_id tid) f app.db)) [
      | inr (x, e) ↦ rw (e, update_by_tspl_id) known
      | inl (db', e) ↦
          let known' = update_trains-Knows uuid (with_tspl_id tid) f app.db db' keeps known e in
          elim (Bool-cases (length (select (with_tspl_id tid) app.db.trains) == 0)) [
            | inl y ↦ rw (e, y, update_by_tspl_id) known'
            | inr n ↦ rw (e, n, update_by_tspl_id) known'
          ]
    ]

pub terminate_train-Knows :
    (uuid : ℕ) (app : App) (tid : ℕ) → Knows uuid app.db → Knows uuid (terminate_train app tid).1.db
unfolding terminate_train
terminate_train-Knows uuid app tid = update_by_tspl_id-Knows uuid _ app tid (λ t. refl)

pub cancel_train-Knows :
    (uuid : ℕ) (app : App) (tid : ℕ) → Knows uuid app.db → Knows uuid (cancel_train app tid).1.db
unfolding cancel_train
cancel_train-Knows uuid app tid = update_by_tspl_id-Knows uuid _ app tid (λ t. refl)

pub associate_trust_id-Knows :
    (uuid : ℕ) (app : App) (tid : ℕ) (trust_id : String)
    → Knows uuid app.db
    → Knows uuid (associate_trust_id app tid trust_id).1.db
unfolding associate_trust_id
associate_trust_id-Knows uuid app tid trust_id = update_by_tspl_id-Knows uuid _ app tid (λ t. refl)

pub get_train_for_trust_id-Knows :
    (c : Chrono) (db : ZugDb) (trust_id : String) (date : ℕ) (t : Train)
    → get_train_for_trust_id c db trust_id date ≡ ok t
    → Knows t.tspl_id db
unfolding get_train_for_trust_id
get_train_for_trust_id-Knows c db trust_id date t h =
    elim (Option-cases (first (select (trust_id_on c trust_id date) db.trains))) [
      | inl e ↦ absurd (err≢ok (rw e at h))
      | inr (u, e) ↦
          subst (λ (x : Train). Knows x.tspl_id db) (ok-injective u t (rw e at h))
            (In-map_of (λ (x : Train). x.tspl_id) u db.trains
              (In-select (trust_id_on c trust_id date) u db.trains (first-In _ u e)).0)
    ]

delete_mvts-Knows :
    (uuid : ℕ) (p : TrainMvt → Bool) (db : ZugDb) → Knows uuid db → Knows uuid (delete_mvts p db)
unfolding delete_mvts
delete_mvts-Knows uuid p db known = known

pub get_train_for_darwin_rid-Knows :
    (db : ZugDb) (rid : String) (t : Train)
    → get_train_for_darwin_rid db rid ≡ ok t
    → Knows t.tspl_id db
unfolding get_train_for_darwin_rid
get_train_for_darwin_rid-Knows db rid t h =
    elim (Option-cases (first (select (λ u. sql_eq u.darwin_rid (some rid)) db.trains))) [
      | inl e ↦ absurd (err≢ok (rw e at h))
      | inr (u, e) ↦
          subst (λ (x : Train). Knows x.tspl_id db) (ok-injective u t (rw e at h))
            (In-map_of (λ (x : Train). x.tspl_id) u db.trains
              (In-select (λ v. sql_eq v.darwin_rid (some rid)) u db.trains (first-In _ u e)).0)
    ]

module _ (sq : Rowids) where
  pub process_darwin_mvt_update-Knows :
      (uuid : ℕ) (app : App) (tid : ℕ) (upd : DarwinMvtUpdate)
      → Knows uuid app.db
      → Knows uuid (process_darwin_mvt_update sq app tid upd).1.db
  unfolding process_darwin_mvt_update
  process_darwin_mvt_update-Knows uuid app tid upd known =
      commit-keeps (Knows uuid) app train_mvt _ known λ r h.
        let (train, t, found, there, target, inserted, is) =
          darwin_transaction-ok sq app.db tid upd r h in
        let (id_is, db_is, parent) =
          insert_mvt-ok sq (delete_mvts (darwin_update_of t.id) app.db) r.1 (darwin_mvt train t upd)
            r.0.id inserted in
        subst (Knows uuid) (sym db_is) (delete_mvts-Knows uuid (darwin_update_of t.id) app.db known)

  pub process_trust_mvt_update-Knows :
      (uuid : ℕ) (app : App) (tid : ℕ) (upd : TrustMvtUpdate)
      → Knows uuid app.db
      → Knows uuid (process_trust_mvt_update sq app tid upd).1.db
  unfolding process_trust_mvt_update
  process_trust_mvt_update-Knows uuid app tid upd known =
      commit-keeps (Knows uuid) app train_mvt _ known λ r h.
        let (train, t, found, there, target, inserted, is) =
          trust_transaction-ok sq app.db tid upd r h in
        let (id_is, db_is, parent) =
          insert_mvt-ok sq app.db r.1 (trust_mvt train t upd) r.0.id inserted in
        subst (Knows uuid) (sym db_is) known

  module _ (f : Fahrplan) (uuid : ℕ) (app : App) (uid : String) (start_date : ℕ) (stp : String)
      (source date : ℕ) where
    pub activate_train-Knows :
        (known_uuid : ℕ)
        → Knows known_uuid app.db
        → Knows known_uuid (activate_train sq f uuid app uid start_date stp source date).1.db
    unfolding activate_train
    activate_train-Knows known_uuid known =
        commit-keeps (Knows known_uuid) app train_activation _ known λ r.
          activate_train_nrod-Knows sq known_uuid f uuid app.db uid start_date stp source date r
            known

    pub activate_train-returns :
        (t : Train)
        → (activate_train sq f uuid app uid start_date stp source date).0 ≡ ok t
        → Knows t.tspl_id (activate_train sq f uuid app uid start_date stp source date).1.db
    unfolding activate_train
    activate_train-returns t h =
        let (done, cast) = commit-ok app train_activation _ t h in
        activate_train_nrod-returns sq f uuid app.db uid start_date stp source date _ done

  module _ (f : Fahrplan) (uuid : ℕ) (app : App) (uid : String) (date : ℕ) (rid : String) where
    -- `UPDATE trains SET darwin_rid`, which forgets no train either.
    set_rid-Knows :
        (known_uuid : ℕ) (r : Train × ZugDb)
        → Knows known_uuid r.1
        → Knows known_uuid (set_rid sq f app rid r).1.db
    unfolding set_rid
    set_rid-Knows known_uuid (ret, db) known =
        elim (ZugResult-cases
          (update_trains (train_with_id ret.id) (λ t. record t { darwin_rid = some rid }) db)) [
            | inl (db', e) ↦
                rw (e, set_rid) (update_trains-Knows known_uuid _ _ db db' (λ t. refl) known e)
            | inr (x, e) ↦ rw (e, set_rid) known
          ]

    set_rid-tspl_id :
        (r : Train × ZugDb) (t : Train)
        → (set_rid sq f app rid r).0 ≡ ok t
        → r.0.tspl_id ≡ t.tspl_id
    unfolding set_rid
    set_rid-tspl_id (ret, db) t h =
        elim (ZugResult-cases
          (update_trains (train_with_id ret.id) (λ t. record t { darwin_rid = some rid }) db)) [
            | inl (db', e) ↦ ap (λ (x : Train). x.tspl_id) (ok-injective _ t (rw (e, set_rid) at h))
            | inr (x, e) ↦ absurd (err≢ok (rw (e, set_rid) at h))
          ]

    pub activate_train_darwin_rid-Knows :
        (known_uuid : ℕ)
        → Knows known_uuid app.db
        → Knows known_uuid (activate_train_darwin_rid sq f uuid app uid date rid).1.db
    unfolding activate_train_darwin_rid
    activate_train_darwin_rid-Knows known_uuid known =
        elim (ZugResult-cases (activate_train_darwin sq f uuid app.db uid date)) [
          | inl (r, e) ↦
              rw (e, activate_train_darwin_rid)
                (set_rid-Knows known_uuid r
                  (activate_train_darwin-Knows sq known_uuid f uuid app.db uid date r known e))
          | inr (x, e) ↦ rw (e, activate_train_darwin_rid) known
        ]

    pub activate_train_darwin_rid-returns :
        (t : Train)
        → (activate_train_darwin_rid sq f uuid app uid date rid).0 ≡ ok t
        → Knows t.tspl_id (activate_train_darwin_rid sq f uuid app uid date rid).1.db
    unfolding activate_train_darwin_rid
    activate_train_darwin_rid-returns t h =
        elim (ZugResult-cases (activate_train_darwin sq f uuid app.db uid date)) [
          | inl (r, e) ↦
              rw (e, activate_train_darwin_rid)
                (subst (λ u. Knows u (set_rid sq f app rid r).1.db)
                  (set_rid-tspl_id r t (rw (e, activate_train_darwin_rid) at h))
                  (set_rid-Knows r.0.tspl_id r
                    (activate_train_darwin-returns sq f uuid app.db uid date r e)))
          | inr (x, e) ↦ absurd (err≢ok (rw (e, activate_train_darwin_rid) at h))
        ]
