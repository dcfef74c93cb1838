-- ===== src/Zugfuhrer/Activation/Valid.antt =====
-- Activation keeps the train database well formed.
use trainsplorer.Prelude.{
  ℕ, String, ◌≡◌, refl, sym, subst, ◌∙◌, inl, inr, true, not, ◌&&◌, Option, none, some, List, [],
  ◌∷◌, All, Bool-cases, Option-cases, ltb, length, map, select, first,
}
use trainsplorer.Sqlite.{Rowids}
use trainsplorer.Fahrplan.Types.{Schedule, ScheduleMvt, source_itps}
use trainsplorer.Zugfuhrer.Types.{Train, TrainMvt, ZugDb, from_itps}
use trainsplorer.Zugfuhrer.Errors.{ok, >>=-eq-ok, ok-injective, from_rpc, optional}
use trainsplorer.Zugfuhrer.Store.{train_with_id, insert_train, insert_mvt}
use trainsplorer.Zugfuhrer.Store.Valid.{
  IsValid, insert_mvt-IsValid, insert_train-IsValid, update_where-IsValid, UpdatesOriginal,
}
use trainsplorer.Zugfuhrer.Activation.{
  ActivationDetails, Fahrplan, runs_to, new_train, copy_mvts, finish, activate_lowlevel,
  get_tmvts_for_schedule, mvts_if_found, set_activated, activate_train_darwin, activate_train_nrod,
}
use trainsplorer.Zugfuhrer.Activation.Idempotent.{again, needs_copy}

-- What an activation keeps: whatever its statements keep, `Original` being what is known of the
-- movements that it copies.
module _ (sq : Rowids) (P : ZugDb → Type 0) (Original : TrainMvt → Type 0)
    (inserts_mvt : (db db' : ZugDb) (m : TrainMvt) (tid id : ℕ)
      → P db
      → Original m
      → insert_mvt sq db (record m { parent_train = tid }) ≡ ok (id, db')
      → P db')
    (inserts_train : (db db' : ZugDb) (t : Train) (id : ℕ)
      → P db
      → insert_train sq db t ≡ ok (id, db')
      → P db')
    (activates : (tid : ℕ) (db : ZugDb) → P db → P (set_activated sq tid db))
    (itps : (m : ScheduleMvt) → Original (from_itps m)) where
  copy_mvts-keeps :
      (db db' : ZugDb) (tid : ℕ) (ms : List TrainMvt)
      → P db
      → All Original ms
      → copy_mvts sq db tid ms ≡ ok db'
      → P db'
  unfolding copy_mvts
  copy_mvts-keeps db db' tid [] v o h = subst P (ok-injective db db' h) v
  copy_mvts-keeps db db' tid (m ∷ ms) v o h =
      let ((id, db1), h1, h2) =
        >>=-eq-ok (insert_mvt sq db (record m { parent_train = tid })) _ h in
      copy_mvts-keeps db1 db' tid ms (inserts_mvt db db1 m tid id v o.0 h1) o.1 h2

  pub finish-keeps :
      (db : ZugDb) (t : Train) (ms : List TrainMvt) (r : Train × ZugDb)
      → P db
      → All Original ms
      → finish sq db t ms ≡ ok r
      → P r.1
  unfolding finish
  finish-keeps db t ms r v o h = elim (Bool-cases (not t.activated && ltb 0 (length ms))) [
    | inr n ↦ subst (λ q. P q.1) (ok-injective _ r (rw n at h)) v
    | inl y ↦
        let (db1, h1, h2) = >>=-eq-ok (copy_mvts sq db t.id ms) _ (rw y at h) in
        subst (λ q. P q.1) (ok-injective _ r h2)
          (activates t.id db1 (copy_mvts-keeps db db1 t.id ms v o h1))
  ]

  activate_lowlevel-keeps :
      (uuid : ℕ) (db : ZugDb) (ad : ActivationDetails) (ms : List TrainMvt) (r : Train × ZugDb)
      → P db
      → All Original ms
      → activate_lowlevel sq uuid db ad ms ≡ ok r
      → P r.1
  unfolding activate_lowlevel
  activate_lowlevel-keeps uuid db ad ms r v o h =
      elim (Option-cases (first (select (runs_to ad) db.trains))) [
        | inl e ↦
            let ((id, db1), h1, h2) =
              >>=-eq-ok (insert_train sq db (new_train uuid ad)) _
                (rw (e, activate_lowlevel) at h) in
            finish-keeps db1 (record (new_train uuid ad) { id = id }) ms r
              (inserts_train db db1 (new_train uuid ad) id v h1) o h2
        | inr (t, e) ↦ elim (Bool-cases (not t.activated && ltb 0 (length ms))) [
          | inl y ↦ finish-keeps db t ms r v o (sym (needs_copy sq uuid ad ms db t e y) ∙ h)
          | inr n ↦ subst (λ q. P q.1) (ok-injective _ r (sym (again sq uuid ad ms db t e n) ∙ h)) v
        ]
      ]

  from_itps-Original : (ms : List ScheduleMvt) → All Original (map from_itps ms)
  from_itps-Original [] = tt
  from_itps-Original (m ∷ ms) = (itps m, from_itps-Original ms)

  get_tmvts_for_schedule-Original :
      (f : Fahrplan) (s : Schedule) (ms : List TrainMvt)
      → get_tmvts_for_schedule sq f s ≡ ok ms
      → All Original ms
  unfolding get_tmvts_for_schedule
  get_tmvts_for_schedule-Original f s ms h =
      let (details, h1, h2) = >>=-eq-ok (from_rpc (f.details s.tspl_id)) _ h in
      subst (All Original) (ok-injective _ ms h2) (from_itps-Original details.mvts)

  mvts_if_found-Original :
      (f : Fahrplan) (s : Option Schedule) (ms : List TrainMvt)
      → mvts_if_found sq f s ≡ ok ms
      → All Original ms
  unfolding mvts_if_found
  mvts_if_found-Original f none ms h = subst (All Original) (ok-injective [] ms h) tt
  mvts_if_found-Original f (some s) ms h = get_tmvts_for_schedule-Original f s ms h

  pub activate_train_darwin-keeps :
      (f : Fahrplan) (uuid : ℕ) (db : ZugDb) (uid : String) (run_date : ℕ) (r : Train × ZugDb)
      → P db
      → activate_train_darwin sq f uuid db uid run_date ≡ ok r
      → P r.1
  unfolding activate_train_darwin
  activate_train_darwin-keeps f uuid db uid run_date r v h =
      let (sched, h1, g) = >>=-eq-ok (from_rpc (f.by_uid_on_date uid run_date source_itps)) _ h in
      let (ms, h2, h3) = >>=-eq-ok (get_tmvts_for_schedule sq f sched) _ g in
      activate_lowlevel-keeps uuid db _ ms r v (get_tmvts_for_schedule-Original f sched ms h2) h3

  pub activate_train_nrod-keeps :
      (f : Fahrplan) (uuid : ℕ) (db : ZugDb) (uid : String) (start_date : ℕ) (stp : String)
      (source date : ℕ) (r : Train × ZugDb)
      → P db
      → activate_train_nrod sq f uuid db uid start_date stp source date ≡ ok r
      → P r.1
  unfolding activate_train_nrod
  activate_train_nrod-keeps f uuid db uid start_date stp source date r v h =
      let (sched, h1, g) =
        >>=-eq-ok (optional (from_rpc (f.for_activation uid start_date stp source))) _ h in
      let (ms, h2, h3) = >>=-eq-ok (mvts_if_found sq f sched) _ g in
      activate_lowlevel-keeps uuid db _ ms r v (mvts_if_found-Original f sched ms h2) h3

pub copy-IsValid :
    (sq : Rowids) (db db' : ZugDb) (m : TrainMvt) (tid id : ℕ)
    → IsValid db
    → m.updates ≡ none
    → insert_mvt sq db (record m { parent_train = tid }) ≡ ok (id, db')
    → IsValid db'
copy-IsValid sq db db' m tid id v o h =
    insert_mvt-IsValid sq db db' (record m { parent_train = tid }) id v
      (subst (UpdatesOriginal db.movements) (sym o) tt) h

pub set_activated-IsValid :
    (sq : Rowids) (tid : ℕ) (db : ZugDb) → IsValid db → IsValid (set_activated sq tid db)
set_activated-IsValid sq tid db v =
    update_where-IsValid (train_with_id tid) (λ u. record u { activated = true }) db (λ u. refl) v

-- Whatever tspl-fahrplan answers, an activation that Darwin asked for and that succeeds keeps the
-- train database well formed.
pub activate_train_darwin-IsValid :
    (sq : Rowids) (f : Fahrplan) (uuid : ℕ) (db : ZugDb) (uid : String) (run_date : ℕ)
    (r : Train × ZugDb)
    → IsValid db
    → activate_train_darwin sq f uuid db uid run_date ≡ ok r
    → IsValid r.1
activate_train_darwin-IsValid sq =
    activate_train_darwin-keeps sq IsValid (λ m. m.updates ≡ none) (copy-IsValid sq)
      (insert_train-IsValid sq) (set_activated-IsValid sq) (λ m. refl)

-- Whatever tspl-fahrplan answers, an activation that TRUST asked for and that succeeds keeps the
-- train database well formed.
pub activate_train_nrod-IsValid :
    (sq : Rowids) (f : Fahrplan) (uuid : ℕ) (db : ZugDb) (uid : String) (start_date : ℕ)
    (stp : String) (source date : ℕ) (r : Train × ZugDb)
    → IsValid db
    → activate_train_nrod sq f uuid db uid start_date stp source date ≡ ok r
    → IsValid r.1
activate_train_nrod-IsValid sq =
    activate_train_nrod-keeps sq IsValid (λ m. m.updates ≡ none) (copy-IsValid sq)
      (insert_train-IsValid sq) (set_activated-IsValid sq) (λ m. refl)
