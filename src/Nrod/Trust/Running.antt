-- ===== src/Nrod/Trust/Running.antt =====
-- The worker of tspl-nrod/src/nrod.rs with tspl-zugfuhrer as its service.
use trainsplorer.Prelude.{
  ℕ, String, ◌≡◌, refl, sym, subst, ◌∙◌, Bool, none, some, List, All, arith, nat_eq,
}
use mathlib.Core.Option.{some-injective}
use trainsplorer.Chrono.{Chrono}
use trainsplorer.Sqlite.{Rowids}
use trainsplorer.Util.Rpc.{RpcResult, receive}
use trainsplorer.Ntrod.Movements.{MvtBody}
use trainsplorer.Zugfuhrer.Types.{Train}
use trainsplorer.Zugfuhrer.Errors.{ZugResult, ok, err, status_code}
use trainsplorer.Zugfuhrer.Activation.{Fahrplan}
use trainsplorer.Zugfuhrer.Activation.Uuids.{Knows}
use trainsplorer.Zugfuhrer.App.{
  App, process_trust_mvt_update, activate_train, terminate_train, cancel_train, associate_trust_id,
  get_train_for_trust_id,
}
use trainsplorer.Zugfuhrer.App.Uuids
use trainsplorer.Nrod.Worker.{Worker}
use trainsplorer.Nrod.Worker.Coherent.{tspl_id_of}
use trainsplorer.Nrod.Trust.{ZugService, on_mvt_message}
use trainsplorer.Nrod.Trust.Known.{KeepsTrains, on_mvt_message-IsCoherent}

-- A handler's result, as a response with a status, received by the worker.
unfoldable pub served {ℓ} : {A : Type ℓ} → ZugResult A → RpcResult A
unfolding status_code receive
served (ok a) = receive 200 (some a)
served (err e) = receive (status_code e) none

abbrev pub served_with {ℓ} : {A : Type ℓ} → ZugResult A × App → RpcResult A × App
served_with (r, app) = (served r, app)

receive_none : (status : ℕ) → tspl_id_of (receive status none) ≡ none
unfolding receive
receive_none status = ground arith

none≢some : {n : ℕ} → none ≡ some n → ⊥
none≢some h = cc

pub served-tspl_id :
    (r : ZugResult Train) (uuid : ℕ)
    → tspl_id_of (served r) ≡ some uuid
    → (t : Train) × (r ≡ ok t) × (t.tspl_id ≡ uuid)
unfolding served
served-tspl_id (ok t) uuid h = (t, refl, some-injective t.tspl_id uuid h)
served-tspl_id (err e) uuid h = absurd (none≢some (sym (receive_none (status_code e)) ∙ h))

module _ (sq : Rowids) (f : Fahrplan) (c : Chrono) (new_v4 : App → ℕ) where
  abbrev pub zugfuhrer : ZugService App
  zugfuhrer = record {
    by_trust_id = λ app trust_id date. served (get_train_for_trust_id c app.db trust_id date);
    activate = λ app uid start_date stp source date.
        served_with (activate_train sq f (new_v4 app) app uid start_date stp source date);
    set_trust_id = λ app tid trust_id. served_with (associate_trust_id app tid trust_id);
    cancel = λ app tid. served_with (cancel_train app tid);
    terminate = λ app tid. served_with (terminate_train app tid);
    trust_movement = λ app tid upd. served_with (process_trust_mvt_update sq app tid upd);
  }

  zugfuhrer-KeepsTrains : KeepsTrains zugfuhrer (λ app uuid. Knows uuid app.db)
  zugfuhrer-KeepsTrains = record {
    found = λ app trust_id date uuid h.
        let (t, e, is) = served-tspl_id (get_train_for_trust_id c app.db trust_id date) uuid h in
        subst (λ u. Knows u app.db) is
          (Uuids.get_train_for_trust_id-Knows c app.db trust_id date t e);
    activated = λ app uid start_date stp source date uuid h.
        let (t, e, is) =
          served-tspl_id (activate_train sq f (new_v4 app) app uid start_date stp source date).0
            uuid h in
        subst
          (λ u. Knows u (activate_train sq f (new_v4 app) app uid start_date stp source date).1.db)
          is
          (Uuids.activate_train-returns sq f (new_v4 app) app uid start_date stp source date t e);
    activate_keeps = λ app uid start_date stp source date uuid.
        Uuids.activate_train-Knows sq f (new_v4 app) app uid start_date stp source date uuid;
    set_trust_id_keeps =
        λ app tid trust_id uuid. Uuids.associate_trust_id-Knows uuid app tid trust_id;
    cancel_keeps = λ app tid uuid. Uuids.cancel_train-Knows uuid app tid;
    terminate_keeps = λ app tid uuid. Uuids.terminate_train-Knows uuid app tid;
    trust_movement_keeps =
        λ app tid upd uuid. Uuids.process_trust_mvt_update-Knows sq uuid app tid upd;
  }

  -- Whatever tspl-fahrplan answers, and whatever headers fit: if every UUID in the cache of the worker is
  -- that of a train in the train database, then this is so after any batch of messages, errors among
  -- them included.
  pub on_mvt_message-known :
      (day_of_month : ℕ → ℕ) (is_header : String → Bool) (recs : List MvtBody) (wk : Worker App)
      → All (λ (e : String × ℕ). Knows e.1 wk.service.db) wk.to_tspl
      → All
          (λ (e : String × ℕ).
            Knows e.1 (on_mvt_message zugfuhrer c day_of_month is_header wk recs).service.db)
          (on_mvt_message zugfuhrer c day_of_month is_header wk recs).to_tspl
  on_mvt_message-known day_of_month is_header recs wk h =
      on_mvt_message-IsCoherent zugfuhrer (λ app uuid. Knows uuid app.db) zugfuhrer-KeepsTrains c
        day_of_month is_header recs wk h
