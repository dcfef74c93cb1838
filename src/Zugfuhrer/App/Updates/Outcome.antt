-- ===== src/Zugfuhrer/App/Updates/Outcome.antt =====
-- What the movement updates of tspl-zugfuhrer/src/ctx.rs leave behind.
use trainsplorer.Prelude.{
  ℕ, ◌≡◌, In, refl, sym, ap, ◌∙◌, Bool, true, false, Option, none, some, [], ◌∷◌, ◌++◌, arith,
  nat_eq, string_eq, eq→==, select, select-append,
}
use trainsplorer.Prelude.Maps.{is_some}
use trainsplorer.Sqlite.{Rowids}
use trainsplorer.Zugfuhrer.Types.{TrainMvt, DarwinMvtUpdate, TrustMvtUpdate, ZugDb}
use trainsplorer.Zugfuhrer.Errors.{ZugResult, ok, err, ok-injective, err≢ok}
use trainsplorer.Zugfuhrer.Store.{delete_mvts}
use trainsplorer.Zugfuhrer.Store.Valid.{IsValid, insert_mvt-ok}
use trainsplorer.Zugfuhrer.App.{
  App, Broadcast, darwin_target, train_mvt, commit, darwin_mvt, darwin_update_of,
  darwin_transaction, process_darwin_mvt_update, process_trust_mvt_update,
}
use trainsplorer.Zugfuhrer.App.Updates.{
  select-delete_mvts, darwin_transaction-ok, darwin_transaction-IsValid, trust_transaction-IsValid,
}

pub commit-keeps {ℓ κ} :
    {A : Type ℓ} (P : ZugDb → Type κ) (app : App) (send : A → Broadcast) (m : ZugResult (A × ZugDb))
    → P app.db
    → ((r : A × ZugDb) → m ≡ ok r → P r.1)
    → P (commit app send m).1.db
commit-keeps P app send (ok (a, db)) h k = k (a, db) refl
commit-keeps P app send (err e) h k = h

pub commit-ok {ℓ} :
    {A : Type ℓ} (app : App) (send : A → Broadcast) (m : ZugResult (A × ZugDb)) (a : A)
    → (commit app send m).0 ≡ ok a
    → (m ≡ ok (a, (commit app send m).1.db))
      × ((commit app send m).1.cast ≡ app.cast ++ send a ∷ [])
commit-ok app send (ok (b, db)) a h =
    let e : b ≡ a = ok-injective b a h in
    (ap (λ c. ok (c, db)) e, ap (λ c. app.cast ++ send c ∷ []) e)
commit-ok app send (err e) a h = absurd (err≢ok h)

select-one {ℓ} : {A : Type ℓ} (p : A → Bool) (a : A) → p a ≡ true → select p (a ∷ []) ≡ a ∷ []
unfolding select
select-one p a h = rw h

none_of : (o : Option ℕ) → is_some o ≡ false → o ≡ none
none_of none h = refl
none_of (some x) h = cc

original_target :
    (tid : ℕ) (upd : DarwinMvtUpdate) (t : TrainMvt)
    → darwin_target tid upd t ≡ true
    → t.updates ≡ none
original_target tid upd t h = none_of t.updates (ground (arith, h))

-- A Darwin update, whether it succeeds or fails, keeps the train database well formed: in
-- particular the movement that it updates is one of the schedule, and is still there.
pub process_darwin_mvt_update-IsValid :
    (sq : Rowids) (app : App) (tid : ℕ) (upd : DarwinMvtUpdate)
    → IsValid app.db
    → IsValid (process_darwin_mvt_update sq app tid upd).1.db
unfolding process_darwin_mvt_update
process_darwin_mvt_update-IsValid sq app tid upd v =
    commit-keeps IsValid app train_mvt _ v λ r. darwin_transaction-IsValid sq app.db tid upd r v

-- A TRUST update, whether it succeeds or fails, keeps the train database well formed.
pub process_trust_mvt_update-IsValid :
    (sq : Rowids) (app : App) (tid : ℕ) (upd : TrustMvtUpdate)
    → IsValid app.db
    → IsValid (process_trust_mvt_update sq app tid upd).1.db
unfolding process_trust_mvt_update
process_trust_mvt_update-IsValid sq app tid upd v =
    commit-keeps IsValid app train_mvt _ v λ r. trust_transaction-IsValid sq app.db tid upd r v

-- What an update that succeeded left: the movement `t` of the schedule has `m` as its only update
-- from Darwin, with the data of the message.
abbrev pub IsOnlyDarwinUpdate : App → App → DarwinMvtUpdate → TrainMvt → TrainMvt → Type 0
IsOnlyDarwinUpdate app app' upd t m =
    (m.updates ≡ some t.id)
    × (select (darwin_update_of t.id) app'.db.movements ≡ m ∷ [])
    × (m.time ≡ upd.updated_time)
    × (m.actual ≡ upd.time_actual)
    × (app'.cast ≡ app.cast ++ train_mvt m ∷ [])

-- A Darwin update that returns a movement replaces all earlier Darwin updates of one movement `t` of
-- the schedule by the one returned, which has the message's time, and broadcasts it once.
pub process_darwin_mvt_update-replaces :
    (sq : Rowids) (app : App) (tid : ℕ) (upd : DarwinMvtUpdate) (m : TrainMvt)
    → (process_darwin_mvt_update sq app tid upd).0 ≡ ok m
    → (t : TrainMvt) × In t app.db.movements
      × (t.updates ≡ none)
      × (t.tiploc ≡ upd.tiploc)
      × IsOnlyDarwinUpdate app (process_darwin_mvt_update sq app tid upd).1 upd t m
unfolding process_darwin_mvt_update
process_darwin_mvt_update-replaces sq app tid upd m h =
    let app' = (commit app train_mvt (darwin_transaction sq app.db tid upd)).1 in
    let (done, cast) = commit-ok app train_mvt (darwin_transaction sq app.db tid upd) m h in
    let (train, t, found, there, target, inserted, is) =
      darwin_transaction-ok sq app.db tid upd (m, app'.db) done in
    let (id_is, db_is, parent) =
      insert_mvt-ok sq (delete_mvts (darwin_update_of t.id) app.db) app'.db (darwin_mvt train t upd)
        m.id inserted in
    (
      t,
      there,
      original_target train.id upd t target,
      ground (arith, target, string_eq.beq_iff t.tiploc upd.tiploc),
      (
        ap (λ n. n.updates) is,
        ap (λ d. select (darwin_update_of t.id) d.movements) db_is
            ∙ select-append (darwin_update_of t.id)
                (delete_mvts (darwin_update_of t.id) app.db).movements _
            ∙ ap
                (λ l.
                  l
                  ++ select (darwin_update_of t.id)
                      (record (darwin_mvt train t upd) { id = m.id } ∷ []))
                (select-delete_mvts (darwin_update_of t.id) app.db)
            ∙ select-one (darwin_update_of t.id) _ (ground (arith, eq→== t.id t.id refl))
            ∙ ap (λ n. n ∷ []) (sym is),
        ap (λ n. n.time) is,
        ap (λ n. n.actual) is,
        cast,
      ),
    )
