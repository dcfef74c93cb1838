-- ===== src/Web/Examples.antt =====
-- The theorems about the page, for an answer with the movements of a train and of a schedule.
use trainsplorer.Prelude.{
  true, false, inl, inr, arith, Option-cases, Sorter, sort-IsSorted, sort-perm, ◌*◌, ◌≡◌, refl,
  some, List, [], ◌∷◌, map, sort, IsSorted, Perm, select, nat_eq,
}
use trainsplorer.Prelude.Maps.{get}
use trainsplorer.Chrono.{proleptic, day, second}
use trainsplorer.Sqlite.{any_row, counting}
use trainsplorer.Util.Rpc.{RpcResult}
use trainsplorer.Fahrplan.Examples.{example_schedule, example_mvt, example_db}
use trainsplorer.Fahrplan.Query
use trainsplorer.Fahrplan.Types as FahrplanTypes
use trainsplorer.Zugfuhrer.App.Examples.{
  example_train, example_tmvt, reported, terminated_train, terminated_train-Reachable,
}
use trainsplorer.Zugfuhrer.Query as ZugQuery
use trainsplorer.Zugfuhrer.Types as ZugTypes
use trainsplorer.Verknupfen.{
  VerknupfenResult, ok, MvtQueryResponse, see_all, get_mvts_passing_through,
}
use trainsplorer.Zugfuhrer.App.{tmvt_lt}
use trainsplorer.Zugfuhrer.Types.{TrainMvt}
use trainsplorer.Fahrplan.Order.{stable}
use trainsplorer.Web.{WebResult, Backend, MovementDesc, desc_lt, get_movements_through_tiploc}
use trainsplorer.Web.Answer.{Fetches, shown_at, reported_at, get_movements_through_tiploc-answers}
use trainsplorer.Web.Served.{over, get_movements_through_tiploc-shown}

abbrev backend : Backend
backend = record {
  train_details = λ uuid. RpcResult.ok (record { train = example_train; mvts = example_tmvt ∷ [] });
  schedule_details = λ uuid.
      RpcResult.ok (record { sched = example_schedule 2 "P"; mvts = example_mvt 1 "CREWE" ∷ [] });
  names = record { tiploc = some "CREWE"; name = "Crewe" } ∷ [];
  second = λ time. 0;
  format = λ pattern time. pattern;
  show_uuid = λ uuid. "9";
}

abbrev fahrplan : FahrplanTypes.MvtQueryResponse
fahrplan = record {
  mvts = (2, example_mvt 2 "CREWE") ∷ [];
  schedules = (2, example_schedule 2 "P") ∷ [];
}

abbrev zugfuhrer : ZugTypes.MvtQueryResponse
zugfuhrer = record {
  mvts = (1, example_tmvt ∷ reported ∷ []) ∷ [];
  trains = (1, example_train) ∷ [];
}

abbrev answer_of : VerknupfenResult MvtQueryResponse → MvtQueryResponse
answer_of (ok r) = r
answer_of _ = record { mvts = []; schedules = []; trains = [] }

abbrev answer : MvtQueryResponse
answer = answer_of (get_mvts_passing_through (RpcResult.ok fahrplan) (RpcResult.ok zugfuhrer))

answer-Fetches : Fetches backend answer
unfolding get_mvts_passing_through get see_all select any_row
answer-Fetches = record { trains = (refl, tt); schedules = (refl, tt) }

get_movements_through_tiploc-answers_example :
    (ds : List MovementDesc) × (map shown_at ds ≡ map reported_at answer.mvts)
    × (get_movements_through_tiploc backend (RpcResult.ok answer) ≡ WebResult.ok (sort desc_lt ds))
    × IsSorted desc_lt (sort desc_lt ds)
    × Perm (sort desc_lt ds) ds
unfolding get_mvts_passing_through get see_all select any_row
get_movements_through_tiploc-answers_example =
    get_movements_through_tiploc-answers backend fahrplan zugfuhrer answer refl answer-Fetches

tmvt_lt_asym : (a b : TrainMvt) → tmvt_lt a b ≡ true → tmvt_lt b a ≡ false
tmvt_lt_asym a b h = elim (Option-cases a.updates) [
  | inl e ↦ elim (Option-cases b.updates) [
    | inl g ↦ ground (arith, rw (e, g) at h, e, g)
    | inr (k, g) ↦ ground (arith, e, g, h)
  ]
  | inr (j, e) ↦ elim (Option-cases b.updates) [
    | inl g ↦ ground (arith, e, g, h)
    | inr (k, g) ↦ ground (arith, e, g, h)
  ]
]

abbrev stable_tmvts : Sorter tmvt_lt
stable_tmvts = record {
  run = sort tmvt_lt;
  sorted = sort-IsSorted tmvt_lt tmvt_lt_asym;
  rearranged = sort-perm tmvt_lt;
}

get_movements_through_tiploc-shown_example :
    (r : MvtQueryResponse) × (ds : List MovementDesc) × (get_mvts_passing_through
        (RpcResult.ok
          (Query.get_mvts_passing_through proleptic example_db "CREWE" (3 * day) second))
        (RpcResult.ok (
          ZugQuery.get_mvts_passing_through proleptic terminated_train.db "CREWE" (3 * day) second))
      ≡ ok r)
    × (map shown_at ds ≡ map reported_at r.mvts)
    × (get_movements_through_tiploc
          (over stable stable_tmvts backend example_db terminated_train.db)
          (RpcResult.ok r)
        ≡ WebResult.ok (sort desc_lt ds))
    × IsSorted desc_lt (sort desc_lt ds)
    × Perm (sort desc_lt ds) ds
get_movements_through_tiploc-shown_example =
    get_movements_through_tiploc-shown stable stable_tmvts backend counting proleptic example_db
      terminated_train "CREWE" (3 * day) second terminated_train-Reachable
