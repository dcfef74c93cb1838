-- ===== src/Verknupfen/Service.antt =====
-- tspl-verknupfen/src/ctx.rs in front of tspl-zugfuhrer/src/ctx.rs: what the loop relies on, the
-- other service provides.
use trainsplorer.Prelude.{
  ℕ, String, ◌≡◌, sym, subst, ◌∙◌, true, List, ◌∷◌, All, All-mono, In-All, arith, nat_eq, string_eq,
}
use trainsplorer.Prelude.Maps.{Map}
use trainsplorer.Chrono.{Chrono}
use trainsplorer.Sqlite.{Rowids, any_row}
use trainsplorer.Util.Rpc.{RpcResult}
use trainsplorer.Fahrplan.Types as FahrplanTypes
use trainsplorer.Zugfuhrer.Types.{Train, TrainMvt, ZugDb, source_sched_itps}
use trainsplorer.Zugfuhrer.App.{App}
use trainsplorer.Zugfuhrer.App.Reach.{Reachable, Reachable-IsSound}
use trainsplorer.Zugfuhrer.App.Sound.{leads}
use trainsplorer.Zugfuhrer.Query
use trainsplorer.Zugfuhrer.Query.{passes}
use trainsplorer.Zugfuhrer.Query.Groups.{IsGroupOf, from, upto, get_mvts_passing_through-Groups}
use trainsplorer.Verknupfen.{ok, MvtQueryResponse, get_mvts_passing_through}
use trainsplorer.Verknupfen.Dedup.{is_from}
use trainsplorer.Verknupfen.Totality.{IsGroup, is_some-latest, get_mvts_passing_through-answers}

any_row-head :
    (m : TrainMvt) (ms : List TrainMvt)
    → m.source ≡ source_sched_itps
    → any_row (is_from source_sched_itps) (m ∷ ms) ≡ true
unfolding any_row
any_row-head m ms h = ground (arith, h)

from_schedule :
    (db : ZugDb) (tpl : String) (start_time end_time : ℕ) (m : TrainMvt)
    → passes tpl start_time end_time m ≡ true
    → leads m ≡ true
    → m.source ≡ source_sched_itps
from_schedule db tpl start_time end_time m h l = ground (arith, h, l)

IsGroupOf-IsGroup :
    (db : ZugDb) (tpl : String) (start_time end_time : ℕ) (trains : Map ℕ Train) (id : ℕ)
    (group : List TrainMvt)
    → All (λ m. leads m ≡ true) db.movements
    → IsGroupOf db tpl start_time end_time trains id group
    → IsGroup trains group
IsGroupOf-IsGroup db tpl start_time end_time trains id group grounded g =
    subst (IsGroup trains) (sym g.group_is) (
      g.train_there,
      is_some-latest source_sched_itps (g.original ∷ g.updates)
          ∙ any_row-head g.original g.updates (
              from_schedule db tpl start_time end_time g.original g.original_passes
                (In-All (λ m. leads m ≡ true) g.original db.movements grounded g.original_in)),
    )

-- Whatever requests tspl-zugfuhrer has served, and whatever tspl-fahrplan answers, the request for
-- the trains through a place is answered: no group of movements makes it fail or panic.
pub get_mvts_passing_through-total :
    (sq : Rowids) (app : App) (c : Chrono) (tpl : String) (ts within_dur : ℕ)
    (f : FahrplanTypes.MvtQueryResponse)
    → Reachable sq app
    → (r : MvtQueryResponse) × (get_mvts_passing_through
          (RpcResult.ok f)
          (RpcResult.ok (Query.get_mvts_passing_through c app.db tpl ts within_dur))
        ≡ ok r)
get_mvts_passing_through-total sq app c tpl ts within_dur f reached =
    let sound = Reachable-IsSound sq app reached in
    let z = Query.get_mvts_passing_through c app.db tpl ts within_dur in
    get_mvts_passing_through-answers f z (
      All-mono
        (λ (e : ℕ × List TrainMvt).
          IsGroupOf app.db tpl (from c ts within_dur) (upto c ts within_dur) z.trains e.0 e.1)
        (λ (e : ℕ × List TrainMvt). IsGroup z.trains e.1)
        (λ e.
          IsGroupOf-IsGroup app.db tpl (from c ts within_dur) (upto c ts within_dur) z.trains e.0
            e.1 sound.grounded)
        z.mvts (get_mvts_passing_through-Groups c app.db tpl ts within_dur))
