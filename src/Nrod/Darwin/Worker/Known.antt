-- ===== src/Nrod/Darwin/Worker/Known.antt =====
-- The Darwin worker of tspl-nrod/src/darwin.rs with tspl-zugfuhrer as its service: it knows a train for
-- every id in its map, and an id keeps its train.
use trainsplorer.Prelude.{
  ℕ, String, ◌≡◌, refl, inl, inr, Bool, ◌&&◌, some, List, [], ◌∷◌, string_eq, Bool-cases,
  Option-cases,
}
use trainsplorer.Prelude.Maps.{get}
use trainsplorer.Util.Rpc.{
  RpcResult, remote_not_found, remote_service_unavailable, reqwest, remote_error,
}
use trainsplorer.Zugfuhrer.Types.{Train, DarwinMvtUpdate}
use trainsplorer.Nrod.Worker.{Worker, answered}
use trainsplorer.Nrod.Worker.Coherent.{
  tspl_id_of, answered-train, bind-keeps, IsCoherent, answered-IsCoherent, remember-IsCoherent,
  answered-Knows,
}
use trainsplorer.Nrod.Darwin.{TsLocation, flatten_locations, requests}
use trainsplorer.Nrod.Darwin.Worker.{
  DarwinService, Ts, PportElement, data_response, unimplemented, header_fits, activated, activate,
  found_or_activate, lookup_or_activate_train, send_all, send_updates, process_ts, process_all,
  process_pport,
}

-- What the worker relies on: a service that knows its trains by UUID never forgets one, and knows those
-- that it answers with.
pub record KeepsTrains {S : Type 0} (ds : DarwinService S) (Knows : S → ℕ → Type 0) : Type 0 where
  pub found :
      (s : S) (rid : String) (uuid : ℕ)
      → tspl_id_of (ds.by_darwin_rid s rid) ≡ some uuid
      → Knows s uuid
  pub activate_returns :
      (s : S) (uid : String) (date : ℕ) (rid : String) (uuid : ℕ)
      → tspl_id_of (ds.activate_fuzzy s uid date rid).0 ≡ some uuid
      → Knows (ds.activate_fuzzy s uid date rid).1 uuid
  pub activate_keeps :
      (s : S) (uid : String) (date : ℕ) (rid : String) (uuid : ℕ)
      → Knows s uuid
      → Knows (ds.activate_fuzzy s uid date rid).1 uuid
  pub update_keeps :
      (s : S) (tid : ℕ) (upd : DarwinMvtUpdate) (uuid : ℕ)
      → Knows s uuid
      → Knows (ds.darwin_update s tid upd).1 uuid

module _ {S : Type 0} (ds : DarwinService S) (is_header : String → Bool) (Knows : S → ℕ → Type 0)
    (k : KeepsTrains ds Knows) where
  activate-IsCoherent :
      (wk : Worker S) (rid uid : String) (ssd : ℕ)
      → IsCoherent Knows wk
      → IsCoherent Knows (activate ds is_header wk rid uid ssd).1
  unfolding activate
  activate-IsCoherent wk rid uid ssd h =
      let r = ds.activate_fuzzy wk.service uid ssd rid in
      let served = answered-IsCoherent Knows wk r (k.activate_keeps wk.service uid ssd rid) h in
      elim (Bool-cases (is_header rid && is_header uid)) [
        | inr n ↦ rw (n, activate) h
        | inl y ↦
            rw (y, activate)
              (bind-keeps (IsCoherent Knows) (answered wk r) (activated ds is_header rid) served
                λ t e.
                  remember-IsCoherent Knows rid t.tspl_id (answered wk r).1
                    (answered-Knows Knows wk r t.tspl_id (
                      k.activate_returns wk.service uid ssd rid t.tspl_id
                        (answered-train wk r t e)))
                    served)
      ]

  found_or_activate-IsCoherent :
      (wk : Worker S) (rid uid : String) (ssd : ℕ) (r : RpcResult Train)
      → ((uuid : ℕ) → tspl_id_of r ≡ some uuid → Knows wk.service uuid)
      → IsCoherent Knows wk
      → IsCoherent Knows (found_or_activate ds is_header wk rid uid ssd r).1
  unfolding found_or_activate
  found_or_activate-IsCoherent wk rid uid ssd (RpcResult.ok t) known h =
      remember-IsCoherent Knows rid t.tspl_id wk (known t.tspl_id refl) h
  found_or_activate-IsCoherent wk rid uid ssd (RpcResult.err remote_not_found) known h =
      activate-IsCoherent wk rid uid ssd h
  found_or_activate-IsCoherent wk rid uid ssd (RpcResult.err remote_service_unavailable) known h = h
  found_or_activate-IsCoherent wk rid uid ssd (RpcResult.err reqwest) known h = h
  found_or_activate-IsCoherent wk rid uid ssd (RpcResult.err (remote_error code)) known h = h

  lookup-IsCoherent :
      (wk : Worker S) (rid uid : String) (ssd : ℕ)
      → IsCoherent Knows wk
      → IsCoherent Knows (lookup_or_activate_train ds is_header wk rid uid ssd).1
  unfolding lookup_or_activate_train
  lookup-IsCoherent wk rid uid ssd h = elim (Option-cases (get rid wk.to_tspl)) [
    | inr (uuid, e) ↦ rw (e, lookup_or_activate_train) h
    | inl e ↦
        rw (e, lookup_or_activate_train)
          (found_or_activate-IsCoherent wk rid uid ssd (ds.by_darwin_rid wk.service rid)
            (k.found wk.service rid) h)
  ]

  send_all-IsCoherent :
      (tspl_id : ℕ) (upds : List DarwinMvtUpdate) (wk : Worker S)
      → IsCoherent Knows wk
      → IsCoherent Knows (send_all ds is_header tspl_id upds wk).1
  unfolding send_all
  send_all-IsCoherent tspl_id [] wk h = h
  send_all-IsCoherent tspl_id (upd ∷ upds) wk h =
      elim (Bool-cases (is_header upd.tiploc && header_fits is_header upd.platform)) [
        | inr n ↦ rw (n, send_all) h
        | inl y ↦
            rw (y, send_all)
              (send_all-IsCoherent tspl_id upds _ (
                answered-IsCoherent Knows wk (ds.darwin_update wk.service tspl_id upd)
                  (k.update_keeps wk.service tspl_id upd) h))
      ]

  send_updates-IsCoherent :
      (locations : List TsLocation) (tspl_id : ℕ) (wk : Worker S)
      → IsCoherent Knows wk
      → IsCoherent Knows (send_updates ds is_header locations (tspl_id, wk)).1
  send_updates-IsCoherent locations tspl_id wk h =
      elim (Option-cases (flatten_locations locations)) [
        | inl e ↦ rw (e, send_updates) h
        | inr (upds, e) ↦ rw (e, send_updates) (send_all-IsCoherent tspl_id (requests upds) wk h)
      ]

  process_ts-IsCoherent :
      (wk : Worker S) (ts : Ts)
      → IsCoherent Knows wk
      → IsCoherent Knows (process_ts ds is_header wk ts).1
  unfolding process_ts
  process_ts-IsCoherent wk ts h =
      let found = lookup_or_activate_train ds is_header wk ts.rid ts.uid ts.start_date in
      let coherent = lookup-IsCoherent wk ts.rid ts.uid ts.start_date h in
      bind-keeps (IsCoherent Knows) found (send_updates ds is_header ts.locations) coherent
        λ id e. send_updates-IsCoherent ts.locations id found.1 coherent

  process_all-IsCoherent :
      (tss : List Ts) (wk : Worker S)
      → IsCoherent Knows wk
      → IsCoherent Knows (process_all ds is_header wk tss)
  unfolding process_all
  process_all-IsCoherent [] wk h = h
  process_all-IsCoherent (ts ∷ tss) wk h =
      process_all-IsCoherent tss (process_ts ds is_header wk ts).1 (process_ts-IsCoherent wk ts h)

  pub process_pport-IsCoherent :
      (wk : Worker S) (pp : PportElement)
      → IsCoherent Knows wk
      → IsCoherent Knows (process_pport ds is_header wk pp)
  unfolding process_pport
  process_pport-IsCoherent wk (data_response tss) h = process_all-IsCoherent tss wk h
  process_pport-IsCoherent wk unimplemented h = h
