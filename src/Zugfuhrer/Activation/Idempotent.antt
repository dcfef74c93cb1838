-- ===== src/Zugfuhrer/Activation/Idempotent.antt =====
-- Activation is idempotent, as `activate_lowlevel` of tspl-zugfuhrer/src/activation.rs promises.
use trainsplorer.Prelude.{
  ℕ, ◌≡◌, refl, sym, ap, subst, ◌∙◌, inl, inr, true, false, not, ◌&&◌, none, some, List, [], ◌∷◌,
  arith, nat_eq, string_eq, eq→==, Bool-cases, Option-cases, ltb, length, map, select, first,
}
use trainsplorer.Sqlite.{first-select-update_where, first-select-append_none, Rowids, any_row}
use trainsplorer.Zugfuhrer.Types.{Train, TrainMvt, ZugDb}
use trainsplorer.Zugfuhrer.Errors.{ok, >>=-eq-ok, ok-injective, err≢ok}
use trainsplorer.Zugfuhrer.Store.{
  train_with_id, train_conflicts, insert_train, insert_mvt, update_is_there, mvt_conflicts,
}
use trainsplorer.Zugfuhrer.Activation.{
  ActivationDetails, runs_to, new_train, copy_mvts, set_activated, finish, activate_lowlevel,
}

module _ (sq : Rowids) where
  insert_mvt-trains :
      (db db' : ZugDb) (m : TrainMvt) (id : ℕ)
      → insert_mvt sq db m ≡ ok (id, db')
      → db'.trains ≡ db.trains
  unfolding insert_mvt
  insert_mvt-trains db db' m id h =
      elim (Bool-cases (
        any_row (train_with_id m.parent_train) db.trains
        && (update_is_there db.movements m.updates
            && not (any_row (mvt_conflicts m) db.movements)))) [
              | inl y ↦ ap (λ r. r.1.trains) (sym (ok-injective _ (id, db') (rw y at h)))
              | inr n ↦ absurd (err≢ok (rw n at h))
            ]

  pub copy_mvts-trains :
      (db db' : ZugDb) (tid : ℕ) (ms : List TrainMvt)
      → copy_mvts sq db tid ms ≡ ok db'
      → db'.trains ≡ db.trains
  unfolding copy_mvts
  copy_mvts-trains db db' tid [] h = ap (λ d. d.trains) (sym (ok-injective db db' h))
  copy_mvts-trains db db' tid (m ∷ ms) h =
      let ((id, db1), h1, h2) =
        >>=-eq-ok (insert_mvt sq db (record m { parent_train = tid })) _ h in
      copy_mvts-trains db1 db' tid ms h2
      ∙ insert_mvt-trains db db1 (record m { parent_train = tid }) id h1

  module _ (uuid : ℕ) (ad : ActivationDetails) (mvts : List TrainMvt) where
    -- A train that is found and that is activated or has nothing to copy, is returned as it is.
    pub again :
        (db : ZugDb) (t : Train)
        → first (select (runs_to ad) db.trains) ≡ some t
        → (not t.activated && ltb 0 (length mvts)) ≡ false
        → activate_lowlevel sq uuid db ad mvts ≡ ok (t, db)
    unfolding activate_lowlevel
    again db t found done = rw (found, activate_lowlevel) (rw done)

    pub needs_copy :
        (db : ZugDb) (t : Train)
        → first (select (runs_to ad) db.trains) ≡ some t
        → (not t.activated && ltb 0 (length mvts)) ≡ true
        → activate_lowlevel sq uuid db ad mvts ≡ finish sq db t mvts
    unfolding activate_lowlevel
    needs_copy db t found y = rw (found, activate_lowlevel) (rw y)

    finish-again :
        (db db' : ZugDb) (t train : Train)
        → first (select (runs_to ad) db.trains) ≡ some t
        → finish sq db t mvts ≡ ok (train, db')
        → activate_lowlevel sq uuid db' ad mvts ≡ ok (train, db')
    unfolding finish
    finish-again db db' t train found h =
        elim (Bool-cases (not t.activated && ltb 0 (length mvts))) [
          | inr n ↦
              subst (λ r. activate_lowlevel sq uuid r.1 ad mvts ≡ ok r)
                (ok-injective _ (train, db') (rw n at h)) (again db t found n)
          | inl y ↦
              let (db1, h1, h2) = >>=-eq-ok (copy_mvts sq db t.id mvts) _ (rw y at h) in
              subst (λ r. activate_lowlevel sq uuid r.1 ad mvts ≡ ok r)
                (ok-injective _ (train, db') h2)
                (again (set_activated sq t.id db1) (record t { activated = true })
                  (first-select-update_where (runs_to ad) (train_with_id t.id)
                    (λ u. record u { activated = true }) db1.trains t (λ x. refl)
                    (ap (λ l. first (select (runs_to ad) l)) (copy_mvts-trains db db1 t.id mvts h1)
                      ∙ found)
                    (eq→== t.id t.id refl))
                  refl)
        ]

new_train-runs_to :
    (uuid id : ℕ) (ad : ActivationDetails)
    → runs_to ad (record (new_train uuid ad) { id = id }) ≡ true
new_train-runs_to uuid id ad =
    ground (arith, eq→== ad.uid ad.uid refl, eq→== ad.stp_indicator ad.stp_indicator refl)

insert_train-first :
    (sq : Rowids) (uuid id : ℕ) (db db' : ZugDb) (ad : ActivationDetails)
    → first (select (runs_to ad) db.trains) ≡ none
    → insert_train sq db (new_train uuid ad) ≡ ok (id, db')
    → first (select (runs_to ad) db'.trains) ≡ some (record (new_train uuid ad) { id = id })
unfolding insert_train
insert_train-first sq uuid id db db' ad missing h =
    elim (Bool-cases (any_row (train_conflicts (new_train uuid ad)) db.trains)) [
      | inl y ↦ absurd (err≢ok (rw y at h))
      | inr n ↦
          subst
            (λ r.
              first (select (runs_to ad) r.1.trains)
              ≡ some (record (new_train uuid ad) { id = r.0 }))
            (ok-injective _ (id, db') (rw n at h))
            (first-select-append_none (runs_to ad) db.trains _ missing
              (new_train-runs_to uuid (sq.next (map (λ u. u.id) db.trains)) ad))
    ]

-- After a successful activation, the same request again, with whatever UUID, returns the same train
-- and changes nothing.
pub activate_lowlevel-idempotent :
    (sq : Rowids) (uuid uuid' : ℕ) (db db' : ZugDb) (ad : ActivationDetails) (mvts : List TrainMvt)
    (train : Train)
    → activate_lowlevel sq uuid db ad mvts ≡ ok (train, db')
    → activate_lowlevel sq uuid' db' ad mvts ≡ ok (train, db')
unfolding activate_lowlevel
activate_lowlevel-idempotent sq uuid uuid' db db' ad mvts train h =
    elim (Option-cases (first (select (runs_to ad) db.trains))) [
      | inr (t, found) ↦ elim (Bool-cases (not t.activated && ltb 0 (length mvts))) [
        | inl y ↦
            finish-again sq uuid' ad mvts db db' t train found
              (sym (needs_copy sq uuid ad mvts db t found y) ∙ h)
        | inr n ↦
            subst (λ r. activate_lowlevel sq uuid' r.1 ad mvts ≡ ok r)
              (ok-injective _ (train, db') (sym (again sq uuid ad mvts db t found n) ∙ h))
              (again sq uuid' ad mvts db t found n)
      ]
      | inl missing ↦
          let ((id, db1), h1, h2) =
            >>=-eq-ok (insert_train sq db (new_train uuid ad)) _
              (rw (missing, activate_lowlevel) at h) in
          finish-again sq uuid' ad mvts db1 db' (record (new_train uuid ad) { id = id }) train
            (insert_train-first sq uuid id db db1 ad missing h1) h2
    ]
