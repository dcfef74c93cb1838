-- ===== src/Verknupfen/Examples.antt =====
-- The theorems about the joined answer, for one train that TRUST has reported, and one schedule with
-- no train yet.
use trainsplorer.Prelude.{ℕ, ◌*◌, true, false, ◌≡◌, ◌↔◌, refl, none, some, List, [], ◌∷◌, In}
use trainsplorer.Prelude.Maps.{Map, get}
use trainsplorer.Util.Rpc.{RpcResult}
use trainsplorer.Fahrplan.Types as FahrplanTypes
use trainsplorer.Fahrplan.Examples.{example_schedule, example_mvt}
use trainsplorer.Zugfuhrer.Types.{Train, TrainMvt, from_itps}
use trainsplorer.Zugfuhrer.Types as ZugTypes
use trainsplorer.Verknupfen.{
  VerknupfenResult, ok, DeduplicatedMvt, MvtQueryResponse, schedule_mvt, see_all, deduplicate,
  deduplicate_all, get_mvts_passing_through,
}
use trainsplorer.Verknupfen.Answer.{Merges, deduplicate-Merges}
use trainsplorer.Chrono.{proleptic, day, second}
use trainsplorer.Sqlite.{counting}
use trainsplorer.Zugfuhrer.App.Examples.{terminated_train, terminated_train-Reachable}
use trainsplorer.Zugfuhrer.Query as ZugQuery
use trainsplorer.Verknupfen.Service.{get_mvts_passing_through-total}
use trainsplorer.Verknupfen.Totality.{
  RunsTo, get_mvts_passing_through-schedules, get_mvts_passing_through-drops,
}

abbrev running : Train
running = record {
  id = 1;
  tspl_id = 9;
  parent_uid = "C20000";
  parent_start_date = 0;
  parent_stp_indicator = "P";
  date = 3;
  trust_id = none;
  darwin_rid = none;
  headcode = none;
  crosses_midnight = false;
  parent_source = 0;
  terminated = false;
  cancelled = false;
  activated = true;
}

abbrev trains : Map ℕ Train
trains = (1, running) ∷ []

abbrev group : List TrainMvt
group =
    record (from_itps (example_mvt 7 "CREWE")) { parent_train = 1 }
    ∷ record (from_itps (example_mvt 8 "CREWE")) {
      parent_train = 1;
      updates = some 7;
      source = 3;
      time = 6;
    }
    ∷ []

abbrev zugfuhrer : ZugTypes.MvtQueryResponse
zugfuhrer = record { mvts = (7, group) ∷ []; trains = trains }

abbrev fahrplan : FahrplanTypes.MvtQueryResponse
fahrplan = record {
  mvts = (1, example_mvt 1 "CREWE") ∷ [];
  schedules = (2, example_schedule 2 "O") ∷ [];
}

abbrev merged_of : VerknupfenResult DeduplicatedMvt → DeduplicatedMvt
merged_of (ok d) = d
merged_of _ = schedule_mvt 0 (example_mvt 1 "CREWE")

abbrev answer_of : VerknupfenResult MvtQueryResponse → MvtQueryResponse
answer_of (ok r) = r
answer_of _ = record { mvts = []; schedules = []; trains = [] }

abbrev answer : MvtQueryResponse
answer = answer_of (get_mvts_passing_through (RpcResult.ok fahrplan) (RpcResult.ok zugfuhrer))

deduplicate-Merges_example : Merges trains group (merged_of (deduplicate trains group))
unfolding deduplicate get see_all
deduplicate-Merges_example =
    deduplicate-Merges trains group (merged_of (deduplicate trains group)) refl

get_mvts_passing_through-total_example :
    (r : MvtQueryResponse) × (get_mvts_passing_through (RpcResult.ok fahrplan) (
        RpcResult.ok (
          ZugQuery.get_mvts_passing_through proleptic terminated_train.db "CREWE" (3 * day) second))
      ≡ ok r)
get_mvts_passing_through-total_example =
    get_mvts_passing_through-total counting terminated_train proleptic "CREWE" (3 * day) second
      fahrplan terminated_train-Reachable

get_mvts_passing_through-schedules_example : In (2, example_schedule 2 "O") answer.schedules ↔ (
    In (2, example_schedule 2 "O") fahrplan.schedules
    × ((e : ℕ × Train) → In e answer.trains → RunsTo e.1 (example_schedule 2 "O") → ⊥))
unfolding get_mvts_passing_through get see_all
get_mvts_passing_through-schedules_example =
    get_mvts_passing_through-schedules fahrplan zugfuhrer answer refl 2 (example_schedule 2 "O")

get_mvts_passing_through-drops_example :
    deduplicate_all zugfuhrer.trains zugfuhrer.mvts ≡ ok answer.mvts
unfolding get_mvts_passing_through get see_all
get_mvts_passing_through-drops_example =
    get_mvts_passing_through-drops fahrplan zugfuhrer answer (refl, tt) refl
