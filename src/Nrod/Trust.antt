-- ===== src/Nrod/Trust.antt =====
-- tspl-nrod/src/nrod.rs: the worker that turns movement messages into requests to tspl-zugfuhrer. The
-- service is an interface over a state of its own. An error ends the handling of one message; what was
-- done before it stays. Whether a string can stand in a header is a parameter.
pub mod Known
pub mod Running
pub mod DayOffset
pub mod Examples
use trainsplorer.Prelude.{
  ℕ, zero, suc, ◌+◌, ◌*◌, ◌-◌, String, Bool, true, false, Option, none, some, List, [], ◌∷◌, ◌&&◌,
  codes, nat_eq, string_eq, ◌==◌, ltb, leb, if◌then◌else◌,
}
use trainsplorer.Prelude.Maps.{Map, get, insert}
use trainsplorer.Chrono.{Chrono}
use trainsplorer.Util.Rpc.{RpcResult}
use trainsplorer.Ntrod.Cif.{as_char}
use trainsplorer.Ntrod.Movements.{
  ScheduleSource, cif_itps, vstp_tops, EventType, arrival, departure, destination, Activation,
  Cancellation, Movement, MvtBody, activation, cancellation, movement,
}
use trainsplorer.Fahrplan.Types.{source_itps, source_vstp}
use trainsplorer.Nrod.Worker.{Worker, Handled, answered, ◌>>=◌, remember}
use trainsplorer.Zugfuhrer.Types.{Train, TrainMvt, TrustMvtUpdate}

-- The requests that the worker makes of tspl-zugfuhrer.
pub record ZugService (S : Type 0) : Type 0 where
  -- GET /trains/by-trust-id/{trust_id}/{date}
  pub by_trust_id : S → String → ℕ → RpcResult Train
  -- POST /trains/activate, with the headers: uid, start date, STP indicator, source, date
  pub activate : S → String → ℕ → String → ℕ → ℕ → RpcResult Train × S
  -- POST /trains/{tid}/trust-id/{trust_id}
  pub set_trust_id : S → ℕ → String → RpcResult (Unit {0}) × S
  -- POST /trains/{tid}/cancel and /trains/{tid}/terminate
  pub cancel : S → ℕ → RpcResult (Unit {0}) × S
  pub terminate : S → ℕ → RpcResult (Unit {0}) × S
  -- POST /trains/{tid}/trust-movement
  pub trust_movement : S → ℕ → TrustMvtUpdate → RpcResult TrainMvt × S

-- The bytes of a character in UTF-8.
abbrev pub width : ℕ → ℕ
width c = if ltb c 128 then 1 else if ltb c 2048 then 2 else if ltb c 65536 then 3 else 4

-- From the `n`-th byte on, if a character begins or the string ends there.
pub skip_bytes : ℕ → List ℕ → Option (List ℕ)
skip_bytes n [] = if n == 0 then some [] else none
skip_bytes n (c ∷ cs) =
    let rest = skip_bytes (n - width c) cs in
    if n == 0 then some (c ∷ cs) else if leb (width c) n then rest else none

-- The first `n` bytes, on the same condition.
pub take_bytes : ℕ → List ℕ → Option (List ℕ)
take_bytes n [] = if n == 0 then some [] else none
take_bytes n (c ∷ cs) =
    let rest = take_bytes (n - width c) cs in
    if n == 0
    then some []
    else if leb (width c) n
    then elim rest [ none ↦ none | some l ↦ some (c ∷ l) ]
    else none

abbrev pub is_digit : ℕ → Bool
is_digit c = leb 48 c && leb c 57

pub parse_digits : ℕ → List ℕ → Option ℕ
parse_digits n [] = some n
parse_digits n (c ∷ cs) =
    let rest = parse_digits (n * 10 + (c - 48)) cs in if is_digit c then rest else none

-- `parse::<u32>` of a string of at most two bytes, which cannot overflow: a `+` may stand before.
pub parse_u32 : List ℕ → Option ℕ
unfolding parse_digits
parse_u32 [] = none
parse_u32 (c ∷ []) = if is_digit c then some (c - 48) else none
parse_u32 (c ∷ d ∷ cs) = if c == 43 then parse_digits 0 (d ∷ cs) else parse_digits 0 (c ∷ d ∷ cs)

abbrev pub parsed : Option (List ℕ) → Option ℕ
parsed none = none
parsed (some l) = parse_u32 l

abbrev pub first_two : Option (List ℕ) → Option (List ℕ)
first_two none = none
first_two (some l) = take_bytes 2 l

-- `tid.get(8..10)`, parsed
unfoldable pub trust_id_extract_day_of_month : String → Option ℕ
unfolding skip_bytes take_bytes parse_u32
trust_id_extract_day_of_month tid = parsed (first_two (skip_bytes 8 (codes tid)))

abbrev pub source_of : ScheduleSource → ℕ
source_of cif_itps = source_itps
source_of vstp_tops = source_vstp

abbrev pub action_of : EventType → ℕ
action_of arrival = 0
action_of destination = 0
action_of departure = 1

module _ {S : Type 0} (zs : ZugService S) (c : Chrono) (day_of_month : ℕ → ℕ)
    (is_header : String → Bool) where
  unfoldable pub lookup_trust_id : Worker S → String → ℕ → Handled S ℕ
  lookup_trust_id wk tid date = elim (get tid wk.to_tspl) [
    | some ret ↦ (some ret, wk)
    | none ↦ elim (zs.by_trust_id wk.service tid date) [
      | RpcResult.ok train ↦ (some train.tspl_id, remember tid train.tspl_id wk)
      | RpcResult.err e ↦ (none, wk)
    ]
  ]

  abbrev pub linked : Activation → Train → Unit {0} × Worker S → Handled S (Unit {0})
  linked a train (done, wk) = (some tt, remember a.train_id train.tspl_id wk)

  -- The train is activated; its TRUST id is linked.
  abbrev pub link : Activation → Train × Worker S → Handled S (Unit {0})
  link a (train, wk) =
      answered wk (zs.set_trust_id wk.service train.tspl_id a.train_id) >>= linked a train

  unfoldable pub handle_activation : Worker S → Activation → Handled S (Unit {0})
  handle_activation wk a =
      if is_header a.train_uid
      then (answered wk (
            zs.activate wk.service a.train_uid a.schedule_start_date (as_char a.schedule_type)
              (source_of a.schedule_source) (c.date a.origin_dep_timestamp))
          >>= link a)
      else (none, wk)

  abbrev pub cancel_found : ℕ × Worker S → Handled S (Unit {0})
  cancel_found (tspl_id, wk) = answered wk (zs.cancel wk.service tspl_id)

  unfoldable pub handle_cancellation : Worker S → Cancellation → Handled S (Unit {0})
  unfolding lookup_trust_id
  handle_cancellation wk x =
      lookup_trust_id wk x.train_id (c.date x.canx_timestamp) >>= cancel_found

  abbrev pub day_offset_of : ℕ → ℕ → ℕ
  day_offset_of planned_ts start_dom =
      if day_of_month (c.date planned_ts) == start_dom then 0 else 1

  abbrev pub header_fits : Option String → Bool
  header_fits none = true
  header_fits (some h) = is_header h

  -- The headers of the request, or none if one does not parse.
  unfoldable pub movement_headers : Movement → ℕ → Option TrustMvtUpdate
  movement_headers m planned_ts =
      if is_header m.loc_stanox
      then elim (trust_id_extract_day_of_month m.train_id) [
        | none ↦ none
        | some start_dom ↦
            if header_fits m.platform
            then some (record {
              stanox = m.loc_stanox;
              planned_time = c.time planned_ts;
              planned_day_offset = day_offset_of planned_ts start_dom;
              planned_action = action_of m.event_type;
              actual_time = c.time m.actual_timestamp;
              actual_public_time = none;
              platform = m.platform;
            })
            else none
      ]
      else none

  abbrev pub terminate_if : Bool → ℕ → TrainMvt × Worker S → Handled S (Unit {0})
  terminate_if false tspl_id (tmvt, wk) = (some tt, wk)
  terminate_if true tspl_id (tmvt, wk) = answered wk (zs.terminate wk.service tspl_id)

  abbrev pub send_movement : Movement → Option TrustMvtUpdate → ℕ × Worker S → Handled S (Unit {0})
  send_movement m none (tspl_id, wk) = (none, wk)
  send_movement m (some upd) (tspl_id, wk) =
      answered wk (zs.trust_movement wk.service tspl_id upd)
      >>= terminate_if m.train_terminated tspl_id

  unfoldable pub handle_planned : Worker S → Movement → Option ℕ → Handled S (Unit {0})
  unfolding lookup_trust_id movement_headers
  handle_planned wk m none = (none, wk)
  handle_planned wk m (some planned_ts) =
      lookup_trust_id wk m.train_id (c.date planned_ts)
      >>= send_movement m (movement_headers m planned_ts)

  unfoldable pub handle_movement : Worker S → Movement → Handled S (Unit {0})
  unfolding handle_planned
  handle_movement wk m =
      if m.offroute_ind then (some tt, wk) else handle_planned wk m m.planned_timestamp

  unfoldable pub handle : Worker S → MvtBody → Handled S (Unit {0})
  unfolding handle_activation handle_cancellation handle_movement
  handle wk (activation a) = handle_activation wk a
  handle wk (movement m) = handle_movement wk m
  handle wk (cancellation x) = handle_cancellation wk x
  handle wk _ = (none, wk)

  -- A batch: an error is logged, and the next record is handled.
  unfoldable pub on_mvt_message : Worker S → List MvtBody → Worker S
  unfolding handle
  on_mvt_message wk [] = wk
  on_mvt_message wk (rec ∷ recs) = on_mvt_message (handle wk rec).1 recs
