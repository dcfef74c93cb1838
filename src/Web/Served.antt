-- ===== src/Web/Served.antt =====
-- The page of tspl-web/src/movements.rs with the services of the repository behind it: the join of
-- tspl-verknupfen/src/ctx.rs, and the queries and the details of tspl-fahrplan/src/ctx.rs and
-- tspl-zugfuhrer/src/ctx.rs. Every request is served from one state of the databases.
use trainsplorer.Prelude.{
  ℕ, String, ◌≡◌, refl, subst, true, not, none, some, List, [], ◌∷◌, All, All-mono, All-select, In,
  In-nil, In-select_of, Perm, nat_eq, ◌==◌, eq→==, first, map, sort, Sorter, IsSorted,
}
use trainsplorer.Chrono.{Chrono}
use trainsplorer.Sqlite.{Rowids}
use trainsplorer.Util.Rpc.{RpcResult, receive}
use trainsplorer.Fahrplan.Types.{Schedule, FahrplanDb, mvt_lt}
use trainsplorer.Fahrplan.Types as FahrplanTypes
use trainsplorer.Fahrplan.Errors.{FahrplanResult, status_code}
use trainsplorer.Fahrplan.Lookup.{request_schedule_details}
use trainsplorer.Fahrplan.Query
use trainsplorer.Fahrplan.Query.Through.{get_mvts_passing_through-schedules_stored}
use trainsplorer.Zugfuhrer.Types.{Train, ZugDb}
use trainsplorer.Zugfuhrer.Types as ZugTypes
use trainsplorer.Zugfuhrer.Store.{with_tspl_id}
use trainsplorer.Zugfuhrer.App.{App, tmvt_lt, find_train, get_train_details}
use trainsplorer.Zugfuhrer.App.Reach.{Reachable}
use trainsplorer.Zugfuhrer.Query as ZugQuery
use trainsplorer.Zugfuhrer.Query.Groups.{get_mvts_passing_through-trains_stored}
use trainsplorer.Nrod.Trust.Running.{served}
use trainsplorer.Verknupfen.{
  MvtQueryResponse, has_train, deduplicate_all, joined, get_mvts_passing_through,
}
use trainsplorer.Verknupfen as V
use trainsplorer.Verknupfen.Answer.{>>=-eq-ok, ok-injective}
use trainsplorer.Verknupfen.Service.{get_mvts_passing_through-total}
use trainsplorer.Web.{WebResult, Backend, MovementDesc, desc_lt, get_movements_through_tiploc}
use trainsplorer.Web.Answer.{
  is_ok, Fetches, shown_at, reported_at, get_movements_through_tiploc-answers,
}

-- A result of tspl-fahrplan, as a response with a status, received by its client.
unfoldable pub served_schedule {ℓ} : {A : Type ℓ} → FahrplanResult A → RpcResult A
unfolding status_code receive
served_schedule (FahrplanResult.ok a) = receive 200 (some a)
served_schedule (FahrplanResult.err e) = receive (status_code e) none

-- The page's backend, with both services at the databases given, and the orders in which SQLite gives
-- the movements.
abbrev pub over : Sorter mvt_lt → Sorter tmvt_lt → Backend → FahrplanDb → ZugDb → Backend
over so to b fdb zdb = record b {
  train_details = λ uuid. served (get_train_details to zdb uuid);
  schedule_details = λ uuid. served_schedule (request_schedule_details so fdb uuid);
}

first-of_In {ℓ} : {A : Type ℓ} (a : A) (xs : List A) → In a xs → (x : A) × (first xs ≡ some x)
first-of_In a [] i = absurd (In-nil a i)
first-of_In a (x ∷ xs) i = (x, refl)

train_details-served :
    (to : Sorter tmvt_lt) (zdb : ZugDb) (t : Train)
    → In t zdb.trains
    → is_ok (served (get_train_details to zdb t.tspl_id)) ≡ true
unfolding served get_train_details find_train receive
train_details-served to zdb t there =
    let (x, e) =
      first-of_In t _ (
        In-select_of (with_tspl_id t.tspl_id) t zdb.trains there
          (eq→== t.tspl_id t.tspl_id refl)) in
    rw e refl

schedule_details-served :
    (so : Sorter mvt_lt) (fdb : FahrplanDb) (s : Schedule)
    → In s fdb.schedules
    → is_ok (served_schedule (request_schedule_details so fdb s.tspl_id)) ≡ true
unfolding served_schedule request_schedule_details receive
schedule_details-served so fdb s there =
    let (x, e) = first-of_In s _ (
      In-select_of (λ r. r.tspl_id == s.tspl_id) s fdb.schedules there
        (eq→== s.tspl_id s.tspl_id refl)) in
    rw e refl

-- Of stored trains and schedules, all details are served.
answer-Fetches :
    (so : Sorter mvt_lt) (to : Sorter tmvt_lt) (b : Backend) (fdb : FahrplanDb) (zdb : ZugDb)
    (f : FahrplanTypes.MvtQueryResponse) (z : ZugTypes.MvtQueryResponse) (r : MvtQueryResponse)
    → All (λ (e : ℕ × Schedule). In e.1 fdb.schedules) f.schedules
    → All (λ (e : ℕ × Train). In e.1 zdb.trains) z.trains
    → get_mvts_passing_through (RpcResult.ok f) (RpcResult.ok z) ≡ V.ok r
    → Fetches (over so to b fdb zdb) r
unfolding get_mvts_passing_through
answer-Fetches so to b fdb zdb f z r scheds trains h =
    let (ds, h1, g1) = >>=-eq-ok (deduplicate_all z.trains z.mvts) _ h in
    subst (Fetches (over so to b fdb zdb)) (ok-injective (joined f z ds) r g1) (record {
      trains = All-mono _ _ (λ e i. train_details-served to zdb e.1 i) z.trains trains;
      schedules =
          All-mono _ _ (λ e i. schedule_details-served so fdb e.1 i) _
            (All-select (λ e. not (has_train z.trains e.1)) _ f.schedules scheds);
    })

module _ (so : Sorter mvt_lt) (to : Sorter tmvt_lt) (b : Backend) (sq : Rowids) (c : Chrono)
    (fdb : FahrplanDb) (app : App) where
  abbrev scheduled : String → ℕ → ℕ → FahrplanTypes.MvtQueryResponse
  scheduled tpl ts within_dur = Query.get_mvts_passing_through c fdb tpl ts within_dur

  abbrev running : String → ℕ → ℕ → ZugTypes.MvtQueryResponse
  running tpl ts within_dur = ZugQuery.get_mvts_passing_through c app.db tpl ts within_dur

  -- Whatever schedules tspl-fahrplan has, and whatever requests tspl-zugfuhrer has served, the page of
  -- the movements through any place at any time is shown: it has one row for each movement that
  -- tspl-verknupfen answers with, sorted by time and action.
  pub get_movements_through_tiploc-shown :
      (tpl : String) (ts within_dur : ℕ)
      → Reachable sq app
      → (r : MvtQueryResponse) × (ds : List MovementDesc) × (get_mvts_passing_through
            (RpcResult.ok (scheduled tpl ts within_dur))
            (RpcResult.ok (running tpl ts within_dur))
          ≡ V.ok r)
        × (map shown_at ds ≡ map reported_at r.mvts)
        × (get_movements_through_tiploc (over so to b fdb app.db) (RpcResult.ok r)
            ≡ WebResult.ok (sort desc_lt ds))
        × IsSorted desc_lt (sort desc_lt ds)
        × Perm (sort desc_lt ds) ds
  get_movements_through_tiploc-shown tpl ts within_dur reached =
      let f = scheduled tpl ts within_dur in
      let z = running tpl ts within_dur in
      let (r, e) = get_mvts_passing_through-total sq app c tpl ts within_dur f reached in
      let fetches =
        answer-Fetches so to b fdb app.db f z r
          (get_mvts_passing_through-schedules_stored c fdb tpl ts within_dur)
          (get_mvts_passing_through-trains_stored c app.db tpl ts within_dur) e in
      let (ds, same, page, sorted, perm) =
        get_movements_through_tiploc-answers (over so to b fdb app.db) f z r e fetches in
      (r, ds, e, same, page, sorted, perm)
