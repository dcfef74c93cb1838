-- ===== src/Nrod/Darwin/Worker.antt =====
-- The worker of tspl-nrod/src/darwin.rs: from a Darwin message to the requests of tspl-zugfuhrer, which
-- is an interface over a state of its own. Whether a string can stand in a header is a parameter. Of a
-- message, what the worker reads is here.
pub mod Known
pub mod Stable
pub mod Running
pub mod Examples
use trainsplorer.Prelude.{
  ℕ, String, Bool, true, false, Option, none, some, List, [], ◌∷◌, ◌&&◌, string_eq, if◌then◌else◌,
}
use trainsplorer.Prelude.Maps.{get}
use trainsplorer.Util.Rpc.{RpcResult, RpcError, remote_not_found}
use trainsplorer.Zugfuhrer.Types.{Train, TrainMvt, DarwinMvtUpdate}
use trainsplorer.Nrod.Worker.{Worker, Handled, answered, ◌>>=◌, remember}
use trainsplorer.Nrod.Darwin.{TsLocation, flatten_locations, requests}

-- The requests that the worker makes of tspl-zugfuhrer.
pub record DarwinService (S : Type 0) : Type 0 where
  -- GET /trains/by-darwin-rid/{rid}
  pub by_darwin_rid : S → String → RpcResult Train
  -- POST /trains/activate-fuzzy, with the headers: uid, date, rid
  pub activate_fuzzy : S → String → ℕ → String → RpcResult Train × S
  -- POST /trains/{tid}/darwin/update
  pub darwin_update : S → ℕ → DarwinMvtUpdate → RpcResult TrainMvt × S

pub record Ts : Type 0 where
  pub locations : List TsLocation
  pub rid : String
  pub uid : String
  pub start_date : ℕ

pub data PportElement : Type 0 where
  data_response : List Ts → PportElement
  unimplemented : PportElement

abbrev pub header_fits : (String → Bool) → Option String → Bool
header_fits is_header none = true
header_fits is_header (some h) = is_header h

module _ {S : Type 0} (ds : DarwinService S) (is_header : String → Bool) where
  abbrev pub activated : String → Train × Worker S → Handled S ℕ
  activated rid (train, wk) = (some train.tspl_id, remember rid train.tspl_id wk)

  unfoldable pub activate : Worker S → String → String → ℕ → Handled S ℕ
  activate wk rid uid ssd =
      if is_header rid && is_header uid
      then answered wk (ds.activate_fuzzy wk.service uid ssd rid) >>= activated rid
      else (none, wk)

  -- What the service has under the id; only its "not found" leads to an activation.
  unfoldable pub found_or_activate : Worker S → String → String → ℕ → RpcResult Train → Handled S ℕ
  unfolding activate
  found_or_activate wk rid uid ssd (RpcResult.ok train) =
      (some train.tspl_id, remember rid train.tspl_id wk)
  found_or_activate wk rid uid ssd (RpcResult.err remote_not_found) = activate wk rid uid ssd
  found_or_activate wk rid uid ssd (RpcResult.err _) = (none, wk)

  unfoldable pub lookup_or_activate_train : Worker S → String → String → ℕ → Handled S ℕ
  unfolding found_or_activate
  lookup_or_activate_train wk rid uid ssd = elim (get rid wk.to_tspl) [
    | some ret ↦ (some ret, wk)
    | none ↦ found_or_activate wk rid uid ssd (ds.by_darwin_rid wk.service rid)
  ]

  -- The requests for the updates: one that fails does not stop the others, but a header that does not
  -- parse does.
  pub send_all : ℕ → List DarwinMvtUpdate → Worker S → Handled S (Unit {0})
  send_all tspl_id [] wk = (some tt, wk)
  send_all tspl_id (upd ∷ upds) wk =
      let rest = send_all tspl_id upds (answered wk (ds.darwin_update wk.service tspl_id upd)).1 in
      if is_header upd.tiploc && header_fits is_header upd.platform then rest else (none, wk)

  abbrev pub send_updates : List TsLocation → ℕ × Worker S → Handled S (Unit {0})
  send_updates locations (tspl_id, wk) = elim (flatten_locations locations) [
    | none ↦ (none, wk)
    | some upds ↦ send_all tspl_id (requests upds) wk
  ]

  unfoldable pub process_ts : Worker S → Ts → Handled S (Unit {0})
  unfolding lookup_or_activate_train send_all
  process_ts wk ts =
      lookup_or_activate_train wk ts.rid ts.uid ts.start_date >>= send_updates ts.locations

  -- A status that fails is logged, and the next is processed.
  pub process_all : Worker S → List Ts → Worker S
  unfolding process_ts
  process_all wk [] = wk
  process_all wk (ts ∷ tss) = process_all (process_ts wk ts).1 tss

  unfoldable pub process_pport : Worker S → PportElement → Worker S
  unfolding process_all
  process_pport wk (data_response tss) = process_all wk tss
  process_pport wk unimplemented = wk
