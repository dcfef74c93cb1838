-- ===== src/Nrod/Darwin/Worker/Stable.antt =====
-- The Darwin worker of tspl-nrod/src/darwin.rs sends all that it hears of an id to one train.
use trainsplorer.Prelude.{
  ℕ, String, ◌≡◌, sym, ap, subst, ◌∙◌, inl, inr, Bool, false, ◌&&◌, none, some, List, [], ◌∷◌,
  arith, string_eq, ◌==◌, ==→eq, Bool-cases, Option-cases,
}
use trainsplorer.Prelude.Maps.{get, get-insert}
use trainsplorer.Util.Rpc.{
  RpcResult, remote_not_found, remote_service_unavailable, reqwest, remote_error,
}
use trainsplorer.Zugfuhrer.Types.{Train, DarwinMvtUpdate}
use trainsplorer.Nrod.Worker.{Worker, answered, remember}
use trainsplorer.Nrod.Worker.Coherent.{answered-service, bind-keeps}
use trainsplorer.Nrod.Darwin.{TsLocation, flatten_locations, requests}
use trainsplorer.Nrod.Darwin.Worker.{
  DarwinService, Ts, PportElement, data_response, unimplemented, header_fits, activated, activate,
  found_or_activate, lookup_or_activate_train, send_all, send_updates, process_ts, process_all,
  process_pport,
}

none≢some : {n : ℕ} → none ≡ some n → ⊥
none≢some h = cc

module _ {S : Type 0} (ds : DarwinService S) (is_header : String → Bool) (known : String)
    (uuid : ℕ) where
  -- The map has this UUID for the id.
  abbrev pub Maps : Worker S → Type 0
  Maps wk = get known wk.to_tspl ≡ some uuid

  answered-Maps :
      {A : Type 0} (wk : Worker S) (r : RpcResult A × S) → Maps wk → Maps (answered wk r).1
  answered-Maps wk r h = subst Maps (sym (answered-service wk r)) h

  -- A new entry is made only for an id without one.
  remember-Maps :
      (rid : String) (id : ℕ) (wk : Worker S)
      → (rid == known) ≡ false
      → Maps wk
      → Maps (remember rid id wk)
  remember-Maps rid id wk n h = ground (arith, h, get-insert rid known id wk.to_tspl)

  unknown :
      (rid : String) (wk : Worker S) → get rid wk.to_tspl ≡ none → Maps wk → (rid == known) ≡ false
  unknown rid wk e h = elim (Bool-cases (rid == known)) [
    | inr n ↦ n
    | inl y ↦ absurd (none≢some (sym e ∙ (ap (λ i. get i wk.to_tspl) (==→eq rid known y) ∙ h)))
  ]

  activate-Maps :
      (wk : Worker S) (rid uid : String) (ssd : ℕ)
      → (rid == known) ≡ false
      → Maps wk
      → Maps (activate ds is_header wk rid uid ssd).1
  unfolding activate
  activate-Maps wk rid uid ssd n h =
      let served = answered wk (ds.activate_fuzzy wk.service uid ssd rid) in
      let h' = answered-Maps wk (ds.activate_fuzzy wk.service uid ssd rid) h in
      elim (Bool-cases (is_header rid && is_header uid)) [
        | inr z ↦ rw (z, activate) h
        | inl y ↦
            rw (y, activate)
              (bind-keeps Maps served (activated ds is_header rid) h'
                λ t e. remember-Maps rid t.tspl_id served.1 n h')
      ]

  found_or_activate-Maps :
      (wk : Worker S) (rid uid : String) (ssd : ℕ) (r : RpcResult Train)
      → (rid == known) ≡ false
      → Maps wk
      → Maps (found_or_activate ds is_header wk rid uid ssd r).1
  unfolding found_or_activate
  found_or_activate-Maps wk rid uid ssd (RpcResult.ok t) n h = remember-Maps rid t.tspl_id wk n h
  found_or_activate-Maps wk rid uid ssd (RpcResult.err remote_not_found) n h =
      activate-Maps wk rid uid ssd n h
  found_or_activate-Maps wk rid uid ssd (RpcResult.err remote_service_unavailable) n h = h
  found_or_activate-Maps wk rid uid ssd (RpcResult.err reqwest) n h = h
  found_or_activate-Maps wk rid uid ssd (RpcResult.err (remote_error code)) n h = h

  lookup-Maps :
      (wk : Worker S) (rid uid : String) (ssd : ℕ)
      → Maps wk
      → Maps (lookup_or_activate_train ds is_header wk rid uid ssd).1
  unfolding lookup_or_activate_train
  lookup-Maps wk rid uid ssd h = elim (Option-cases (get rid wk.to_tspl)) [
    | inr (id, e) ↦ rw (e, lookup_or_activate_train) h
    | inl e ↦
        rw (e, lookup_or_activate_train)
          (found_or_activate-Maps wk rid uid ssd (ds.by_darwin_rid wk.service rid)
            (unknown rid wk e h) h)
  ]

  send_all-Maps :
      (tspl_id : ℕ) (upds : List DarwinMvtUpdate) (wk : Worker S)
      → Maps wk
      → Maps (send_all ds is_header tspl_id upds wk).1
  unfolding send_all
  send_all-Maps tspl_id [] wk h = h
  send_all-Maps tspl_id (upd ∷ upds) wk h =
      elim (Bool-cases (is_header upd.tiploc && header_fits is_header upd.platform)) [
        | inr n ↦ rw (n, send_all) h
        | inl y ↦
            rw (y, send_all)
              (send_all-Maps tspl_id upds _
                (answered-Maps wk (ds.darwin_update wk.service tspl_id upd) h))
      ]

  send_updates-Maps :
      (locations : List TsLocation) (tspl_id : ℕ) (wk : Worker S)
      → Maps wk
      → Maps (send_updates ds is_header locations (tspl_id, wk)).1
  send_updates-Maps locations tspl_id wk h = elim (Option-cases (flatten_locations locations)) [
    | inl e ↦ rw (e, send_updates) h
    | inr (upds, e) ↦ rw (e, send_updates) (send_all-Maps tspl_id (requests upds) wk h)
  ]

  process_ts-Maps : (wk : Worker S) (ts : Ts) → Maps wk → Maps (process_ts ds is_header wk ts).1
  unfolding process_ts
  process_ts-Maps wk ts h =
      let found = lookup_or_activate_train ds is_header wk ts.rid ts.uid ts.start_date in
      let h' = lookup-Maps wk ts.rid ts.uid ts.start_date h in
      bind-keeps Maps found (send_updates ds is_header ts.locations) h'
        λ id e. send_updates-Maps ts.locations id found.1 h'

  process_all-Maps :
      (tss : List Ts) (wk : Worker S) → Maps wk → Maps (process_all ds is_header wk tss)
  unfolding process_all
  process_all-Maps [] wk h = h
  process_all-Maps (ts ∷ tss) wk h =
      process_all-Maps tss (process_ts ds is_header wk ts).1 (process_ts-Maps wk ts h)

  -- Once the worker has a train for an id, it has that train for it after any message, whatever the
  -- service answers.
  pub process_pport-stable :
      (wk : Worker S) (pp : PportElement)
      → get known wk.to_tspl ≡ some uuid
      → get known (process_pport ds is_header wk pp).to_tspl ≡ some uuid
  unfolding process_pport
  process_pport-stable wk (data_response tss) h = process_all-Maps tss wk h
  process_pport-stable wk unimplemented h = h
