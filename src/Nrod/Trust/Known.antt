-- ===== src/Nrod/Trust/Known.antt =====
-- The cache of tspl-nrod/src/nrod.rs: the UUIDs in it are those of trains that the service has.
use trainsplorer.Prelude.{
  ℕ, String, ◌≡◌, sym, ap, subst, inl, inr, Bool, true, false, Option, none, some, List, [], ◌∷◌,
  string_eq, Bool-cases, Option-cases,
}
use trainsplorer.Prelude.Maps.{get, All-insert}
use trainsplorer.Chrono.{Chrono}
use trainsplorer.Util.Rpc.{RpcResult}
use trainsplorer.Ntrod.Movements.{
  Activation, Cancellation, Movement, MvtBody, activation, cancellation, movement, reinstatement,
  change_of_origin, change_of_identity, change_of_location, unknown,
}
use trainsplorer.Ntrod.Cif.{as_char}
use trainsplorer.Zugfuhrer.Types.{Train, TrainMvt, TrustMvtUpdate}
use trainsplorer.Nrod.Worker.{Worker, answered}
use trainsplorer.Nrod.Worker.Coherent.{
  tspl_id_of, RpcResult-cases, answered-service, answered-train, bind-keeps, IsCoherent,
  answered-IsCoherent,
}
use trainsplorer.Nrod.Trust.{
  ZugService, Worker, answered, lookup_trust_id, handle_activation, handle_cancellation, source_of,
  linked, link, cancel_found, movement_headers, terminate_if, send_movement, handle_planned,
  handle_movement, handle, on_mvt_message,
}

-- What the worker relies on: a service that knows its trains by UUID never forgets one, and knows
-- those that it answers with.
pub record KeepsTrains {S : Type 0} (zs : ZugService S) (Knows : S → ℕ → Type 0) : Type 0 where
  pub found :
      (s : S) (tid : String) (date uuid : ℕ)
      → tspl_id_of (zs.by_trust_id s tid date) ≡ some uuid
      → Knows s uuid
  pub activated :
      (s : S) (uid : String) (start_date : ℕ) (stp : String) (source date uuid : ℕ)
      → tspl_id_of (zs.activate s uid start_date stp source date).0 ≡ some uuid
      → Knows (zs.activate s uid start_date stp source date).1 uuid
  pub activate_keeps :
      (s : S) (uid : String) (start_date : ℕ) (stp : String) (source date uuid : ℕ)
      → Knows s uuid
      → Knows (zs.activate s uid start_date stp source date).1 uuid
  pub set_trust_id_keeps :
      (s : S) (tid : ℕ) (trust_id : String) (uuid : ℕ)
      → Knows s uuid
      → Knows (zs.set_trust_id s tid trust_id).1 uuid
  pub cancel_keeps : (s : S) (tid uuid : ℕ) → Knows s uuid → Knows (zs.cancel s tid).1 uuid
  pub terminate_keeps : (s : S) (tid uuid : ℕ) → Knows s uuid → Knows (zs.terminate s tid).1 uuid
  pub trust_movement_keeps :
      (s : S) (tid : ℕ) (upd : TrustMvtUpdate) (uuid : ℕ)
      → Knows s uuid
      → Knows (zs.trust_movement s tid upd).1 uuid

module _ {S : Type 0} (zs : ZugService S) (Knows : S → ℕ → Type 0) (k : KeepsTrains zs Knows)
    (c : Chrono) (day_of_month : ℕ → ℕ) (is_header : String → Bool) where
  lookup-IsCoherent :
      (wk : Worker S) (tid : String) (date : ℕ)
      → IsCoherent Knows wk
      → IsCoherent Knows (lookup_trust_id zs c day_of_month is_header wk tid date).1
  unfolding lookup_trust_id
  lookup-IsCoherent wk tid date h = elim (Option-cases (get tid wk.to_tspl)) [
    | inr (uuid, e) ↦ rw (e, lookup_trust_id) h
    | inl e ↦ elim (RpcResult-cases (zs.by_trust_id wk.service tid date)) [
      | inr (x, g) ↦ rw (e, g, lookup_trust_id) h
      | inl (t, g) ↦
          rw (e, g, lookup_trust_id)
            (All-insert (λ (e : String × ℕ). Knows wk.service e.1) tid t.tspl_id wk.to_tspl h
              (k.found wk.service tid date t.tspl_id (ap tspl_id_of g)))
    ]
  ]

  abbrev request : Worker S → Activation → RpcResult Train × S
  request wk a =
      zs.activate wk.service a.train_uid a.schedule_start_date (as_char a.schedule_type)
        (source_of a.schedule_source) (c.date a.origin_dep_timestamp)

  served :
      (wk : Worker S) (a : Activation)
      → IsCoherent Knows wk
      → IsCoherent Knows (answered wk (request wk a)).1
  served wk a h =
      answered-IsCoherent Knows wk (request wk a)
        (k.activate_keeps wk.service a.train_uid a.schedule_start_date (as_char a.schedule_type)
          (source_of a.schedule_source) (c.date a.origin_dep_timestamp))
        h

  activated-Knows :
      (wk : Worker S) (a : Activation) (t : Train)
      → (answered wk (request wk a)).0 ≡ some t
      → Knows (answered wk (request wk a)).1.service t.tspl_id
  activated-Knows wk a t e =
      subst (λ (v : Worker S). Knows v.service t.tspl_id) (sym (answered-service wk (request wk a)))
        (k.activated wk.service a.train_uid a.schedule_start_date (as_char a.schedule_type)
          (source_of a.schedule_source) (c.date a.origin_dep_timestamp) t.tspl_id
          (answered-train wk (request wk a) t e))

  link-IsCoherent :
      (a : Activation) (t : Train) (wk : Worker S)
      → IsCoherent Knows wk
      → Knows wk.service t.tspl_id
      → IsCoherent Knows (link zs c day_of_month is_header a (t, wk)).1
  link-IsCoherent a t wk h known =
      let r = zs.set_trust_id wk.service t.tspl_id a.train_id in
      let keeps = k.set_trust_id_keeps wk.service t.tspl_id a.train_id in
      bind-keeps (IsCoherent Knows) (answered wk r) (linked zs c day_of_month is_header a t)
        (answered-IsCoherent Knows wk r keeps h)
        λ u f.
          All-insert (λ (e : String × ℕ). Knows (answered wk r).1.service e.1) a.train_id t.tspl_id
            (answered wk r).1.to_tspl (answered-IsCoherent Knows wk r keeps h)
            (subst (λ (v : Worker S). Knows v.service t.tspl_id) (sym (answered-service wk r))
              (keeps t.tspl_id known))

  activation-IsCoherent :
      (wk : Worker S) (a : Activation)
      → IsCoherent Knows wk
      → IsCoherent Knows (handle_activation zs c day_of_month is_header wk a).1
  unfolding handle_activation
  activation-IsCoherent wk a h = elim (Bool-cases (is_header a.train_uid)) [
    | inr n ↦ rw (n, handle_activation) h
    | inl y ↦
        rw (y, handle_activation)
          (bind-keeps (IsCoherent Knows) (answered wk (request wk a))
            (link zs c day_of_month is_header a) (served wk a h)
            λ t e.
              link-IsCoherent a t (answered wk (request wk a)).1 (served wk a h)
                (activated-Knows wk a t e))
  ]

  cancellation-IsCoherent :
      (wk : Worker S) (x : Cancellation)
      → IsCoherent Knows wk
      → IsCoherent Knows (handle_cancellation zs c day_of_month is_header wk x).1
  unfolding handle_cancellation
  cancellation-IsCoherent wk x h =
      let found =
        lookup_trust_id zs c day_of_month is_header wk x.train_id (c.date x.canx_timestamp) in
      let known = lookup-IsCoherent wk x.train_id (c.date x.canx_timestamp) h in
      bind-keeps (IsCoherent Knows) found (cancel_found zs c day_of_month is_header) known λ id e.
        answered-IsCoherent Knows found.1 (zs.cancel found.1.service id)
          (k.cancel_keeps found.1.service id) known

  terminate_if-IsCoherent :
      (b : Bool) (id : ℕ) (tmvt : TrainMvt) (wk : Worker S)
      → IsCoherent Knows wk
      → IsCoherent Knows (terminate_if zs c day_of_month is_header b id (tmvt, wk)).1
  terminate_if-IsCoherent false id tmvt wk h = h
  terminate_if-IsCoherent true id tmvt wk h =
      answered-IsCoherent Knows wk (zs.terminate wk.service id) (k.terminate_keeps wk.service id) h

  send_movement-IsCoherent :
      (m : Movement) (upd : Option TrustMvtUpdate) (id : ℕ) (wk : Worker S)
      → IsCoherent Knows wk
      → IsCoherent Knows (send_movement zs c day_of_month is_header m upd (id, wk)).1
  send_movement-IsCoherent m none id wk h = h
  send_movement-IsCoherent m (some upd) id wk h =
      let sent = answered wk (zs.trust_movement wk.service id upd) in
      let served =
        answered-IsCoherent Knows wk (zs.trust_movement wk.service id upd)
          (k.trust_movement_keeps wk.service id upd) h in
      bind-keeps (IsCoherent Knows) sent
        (terminate_if zs c day_of_month is_header m.train_terminated id) served
        λ tmvt e. terminate_if-IsCoherent m.train_terminated id tmvt sent.1 served

  planned-IsCoherent :
      (wk : Worker S) (m : Movement) (planned : Option ℕ)
      → IsCoherent Knows wk
      → IsCoherent Knows (handle_planned zs c day_of_month is_header wk m planned).1
  unfolding handle_planned
  planned-IsCoherent wk m none h = h
  planned-IsCoherent wk m (some ts) h =
      let looked_up = lookup-IsCoherent wk m.train_id (c.date ts) h in
      let found = lookup_trust_id zs c day_of_month is_header wk m.train_id (c.date ts) in
      let upd = movement_headers zs c day_of_month is_header m ts in
      bind-keeps (IsCoherent Knows) found (send_movement zs c day_of_month is_header m upd)
        looked_up λ id e. send_movement-IsCoherent m upd id found.1 looked_up

  movement-IsCoherent :
      (wk : Worker S) (m : Movement)
      → IsCoherent Knows wk
      → IsCoherent Knows (handle_movement zs c day_of_month is_header wk m).1
  unfolding handle_movement
  movement-IsCoherent wk m h = elim (Bool-cases m.offroute_ind) [
    | inl y ↦ rw (y, handle_movement) h
    | inr n ↦ rw (n, handle_movement) (planned-IsCoherent wk m m.planned_timestamp h)
  ]

  handle-IsCoherent :
      (wk : Worker S) (rec : MvtBody)
      → IsCoherent Knows wk
      → IsCoherent Knows (handle zs c day_of_month is_header wk rec).1
  unfolding handle
  handle-IsCoherent wk (activation a) h = activation-IsCoherent wk a h
  handle-IsCoherent wk (cancellation x) h = cancellation-IsCoherent wk x h
  handle-IsCoherent wk (movement m) h = movement-IsCoherent wk m h
  handle-IsCoherent wk reinstatement h = h
  handle-IsCoherent wk change_of_origin h = h
  handle-IsCoherent wk change_of_identity h = h
  handle-IsCoherent wk change_of_location h = h
  handle-IsCoherent wk unknown h = h

  pub on_mvt_message-IsCoherent :
      (recs : List MvtBody) (wk : Worker S)
      → IsCoherent Knows wk
      → IsCoherent Knows (on_mvt_message zs c day_of_month is_header wk recs)
  unfolding on_mvt_message
  on_mvt_message-IsCoherent [] wk h = h
  on_mvt_message-IsCoherent (rec ∷ recs) wk h =
      on_mvt_message-IsCoherent recs (handle zs c day_of_month is_header wk rec).1
        (handle-IsCoherent wk rec h)
