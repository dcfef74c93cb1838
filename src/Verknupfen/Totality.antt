-- ===== src/Verknupfen/Totality.antt =====
-- tspl-verknupfen/src/ctx.rs answers, without a panic, whenever the two services do; and what it
-- answers.
use trainsplorer.Prelude.{
  ℕ, ◌≡◌, ◌↔◌, refl, sym, ap, subst, ◌∙◌, inl, inr, true, false, not, Option, none, some, List, [],
  ◌∷◌, ◌++◌, All, All-mono, In, In-select, In-select_of, arith, nat_eq, string_eq, Bool-cases,
  Option-cases,
}
use trainsplorer.Prelude.Maps.{Map, get, is_some, get-select_none}
use trainsplorer.Sqlite.{any_row, any_row-of_In, In-of_any_row, true≢false}
use trainsplorer.Util.Rpc.{RpcResult}
use trainsplorer.Fahrplan.Types.{Schedule, ScheduleMvt}
use trainsplorer.Fahrplan.Types as FahrplanTypes
use trainsplorer.Zugfuhrer.Types.{Train, TrainMvt, source_sched_itps, source_trust, source_darwin}
use trainsplorer.Zugfuhrer.Types as ZugTypes
use trainsplorer.Verknupfen.{
  ok, TimeWithSource, DeduplicatedMvt, MvtQueryResponse, has_train, runs_schedule, Seen,
  nothing_seen, see, see_all, times, deduplicate, deduplicate_all, merged, joined, retained,
  schedule_mvts, get_mvts_passing_through,
}
use trainsplorer.Verknupfen.Dedup.{
  latest, is_from, see_all-time, see_all-actual, see_all-time_scheduled,
}
use trainsplorer.Verknupfen.Answer.{>>=-eq-ok, ok-injective}

-- What the loop needs of a group: the train of its first movement, and a movement of the schedule.
abbrev pub IsGroup : Map ℕ Train → List TrainMvt → Type 0
IsGroup trains [] = ⊥
IsGroup trains (m ∷ ms) =
    (is_some (get m.parent_train trains) ≡ true)
    × (is_some (latest source_sched_itps (m ∷ ms)) ≡ true)

see_all-tiploc :
    (s : Seen) (m : TrainMvt) (ms : List TrainMvt)
    → (is_some (see_all s (m ∷ ms)).tiploc ≡ true) × (is_some (see_all s (m ∷ ms)).action ≡ true)
unfolding see_all
see_all-tiploc s m [] = (ground arith, ground arith)
see_all-tiploc s m (n ∷ ms) = see_all-tiploc (see s m) n ms

is_some-eq {ℓ} : {A : Type ℓ} (o : Option A) → is_some o ≡ true → (a : A) × (o ≡ some a)
is_some-eq none h = cc
is_some-eq (some a) h = (a, refl)

pub is_some-latest :
    (src : ℕ) (ms : List TrainMvt) → is_some (latest src ms) ≡ any_row (is_from src) ms
unfolding any_row
is_some-latest src [] = refl
is_some-latest src (m ∷ ms) = ground (arith, is_some-latest src ms)

times-answers :
    (s : Seen)
    → (s.time ≡ none → s.actual ≡ false)
    → is_some s.time_scheduled ≡ true
    → (r : TimeWithSource × Option TimeWithSource) × (times s ≡ ok r)
unfolding times
times-answers s unreported h = elim (Option-cases s.time) [
  | inr (u, e) ↦ ((u, s.time_scheduled), rw e refl)
  | inl e ↦
      let (u, scheduled) = is_some-eq s.time_scheduled h in
      ((u, none), rw (e, unreported e, scheduled) refl)
]

unreported :
    (ms : List TrainMvt)
    → (see_all nothing_seen ms).time ≡ none
    → (see_all nothing_seen ms).actual ≡ false
unreported ms e =
    see_all-actual nothing_seen ms
    ∙ ground (arith, is_some-latest source_trust ms, see_all-time nothing_seen ms)

scheduled :
    (ms : List TrainMvt)
    → is_some (latest source_sched_itps ms) ≡ true
    → is_some (see_all nothing_seen ms).time_scheduled ≡ true
scheduled ms h = ground (arith, see_all-time_scheduled nothing_seen ms)

pub deduplicate-answers :
    (trains : Map ℕ Train) (ms : List TrainMvt)
    → IsGroup trains ms
    → (d : DeduplicatedMvt) × (deduplicate trains ms ≡ ok d)
unfolding deduplicate
deduplicate-answers trains [] h = absurd h
deduplicate-answers trains (m ∷ ms) h =
    let seen = see_all nothing_seen (m ∷ ms) in
    let (parent, e1) = is_some-eq (get m.parent_train trains) h.0 in
    let (r, e2) = times-answers seen (unreported (m ∷ ms)) (scheduled (m ∷ ms) h.1) in
    let (tiploc, e3) = is_some-eq seen.tiploc (see_all-tiploc nothing_seen m ms).0 in
    let (action, e4) = is_some-eq seen.action (see_all-tiploc nothing_seen m ms).1 in
    (merged m.parent_train parent seen r tiploc action, rw (e1, e2, e3, e4) refl)

deduplicate_all-answers :
    (trains : Map ℕ Train) (groups : Map ℕ (List TrainMvt))
    → All (λ g. IsGroup trains g.1) groups
    → (ds : List DeduplicatedMvt) × (deduplicate_all trains groups ≡ ok ds)
unfolding deduplicate_all
deduplicate_all-answers trains [] h = ([], refl)
deduplicate_all-answers trains ((mid, ms) ∷ rest) h =
    let (d, e) = deduplicate-answers trains ms h.0 in
    let (ds, f) = deduplicate_all-answers trains rest h.1 in (d ∷ ds, rw (e, f) refl)

-- If both services answer, and every group of train movements has a movement of the schedule and a
-- train for its first movement, then the request is answered: it neither fails nor panics.
pub get_mvts_passing_through-answers :
    (f : FahrplanTypes.MvtQueryResponse) (z : ZugTypes.MvtQueryResponse)
    → All (λ g. IsGroup z.trains g.1) z.mvts
    → (r : MvtQueryResponse) × (get_mvts_passing_through (RpcResult.ok f) (RpcResult.ok z) ≡ ok r)
unfolding get_mvts_passing_through
get_mvts_passing_through-answers f z h =
    let (ds, e) = deduplicate_all-answers z.trains z.mvts h in (joined f z ds, rw e refl)

-- The train runs to this schedule.
abbrev pub RunsTo : Train → Schedule → Type 0
RunsTo t s =
    (t.parent_uid ≡ s.uid)
    × (t.parent_start_date ≡ s.start_date)
    × (t.parent_stp_indicator ≡ s.stp_indicator)
    × (t.parent_source ≡ s.source)

runs_schedule-RunsTo : (s : Schedule) (t : Train) → (runs_schedule s t ≡ true) ↔ RunsTo t s
runs_schedule-RunsTo s t = (
  (λ h. (
    (string_eq.beq_iff t.parent_uid s.uid).0 (ground (arith, h)),
    ground (arith, h),
    (string_eq.beq_iff t.parent_stp_indicator s.stp_indicator).0 (ground (arith, h)),
    ground (arith, h),
  )),
  (λ h. ground (
    arith,
    h.1,
    h.3,
    (string_eq.beq_iff t.parent_uid s.uid).1 h.0,
    (string_eq.beq_iff t.parent_stp_indicator s.stp_indicator).1 h.2,
  )),
)

has_train-RunsTo :
    (trains : Map ℕ Train) (s : Schedule)
    → (has_train trains s ≡ false) ↔ ((e : ℕ × Train) → In e trains → RunsTo e.1 s → ⊥)
has_train-RunsTo trains s = (
  (λ h e there runs. true≢false (
      sym (
        any_row-of_In (λ d. runs_schedule s d.1) e trains there
          ((runs_schedule-RunsTo s e.1).1 runs))
      ∙ h)),
  (λ h. elim (Bool-cases (has_train trains s)) [
    | inr n ↦ n
    | inl y ↦
        let (e, there, runs) = In-of_any_row (λ d. runs_schedule s d.1) trains y in
        absurd (h e there ((runs_schedule-RunsTo s e.1).0 runs))
  ]),
)

-- An answer keeps exactly those of tspl-fahrplan's schedules that no train of the answer runs to: no
-- train has the UID, the start date, the STP indicator and the source of the schedule.
pub get_mvts_passing_through-schedules :
    (f : FahrplanTypes.MvtQueryResponse) (z : ZugTypes.MvtQueryResponse) (r : MvtQueryResponse)
    → get_mvts_passing_through (RpcResult.ok f) (RpcResult.ok z) ≡ ok r
    → (id : ℕ) (s : Schedule)
    → In (id, s) r.schedules
      ↔ (In (id, s) f.schedules × ((e : ℕ × Train) → In e r.trains → RunsTo e.1 s → ⊥))
unfolding get_mvts_passing_through
get_mvts_passing_through-schedules f z r h id s =
    let (ds, e, g) = >>=-eq-ok (deduplicate_all z.trains z.mvts) _ h in
    subst
      (λ (a : MvtQueryResponse).
        In (id, s) a.schedules
        ↔ (In (id, s) f.schedules × ((d : ℕ × Train) → In d a.trains → RunsTo d.1 s → ⊥)))
      (ok-injective _ r g)
      (
        (λ m.
            let (i, k) = In-select (λ d. not (has_train z.trains d.1)) (id, s) f.schedules m in
            (i, (has_train-RunsTo z.trains s).0 (ground (arith, k)))),
        (λ k.
            let none_runs = (has_train-RunsTo z.trains s).1 k.1 in
            In-select_of (λ d. not (has_train z.trains d.1)) (id, s) f.schedules k.0
              (ground (arith, none_runs))),
      )

append_nil {ℓ} : {A : Type ℓ} (l : List A) → l ++ [] ≡ l
append_nil [] = refl
append_nil (x ∷ l) = ap (λ k. x ∷ k) (append_nil l)

schedule_mvts_none :
    (schedules : Map ℕ Schedule) (mvts : Map ℕ ScheduleMvt)
    → All (λ e. get e.0 schedules ≡ none) mvts
    → schedule_mvts schedules mvts ≡ []
unfolding schedule_mvts
schedule_mvts_none schedules [] h = refl
schedule_mvts_none schedules ((id, m) ∷ rest) h =
    rw (h.0, schedule_mvts) (schedule_mvts_none schedules rest h.1)

-- If no movement of tspl-fahrplan's answer has the id of one of its schedules, then the movements of
-- the answer are those of trains alone, whatever schedules remain: the loop takes the key of a
-- movement, which is the movement's own id, for the id of its schedule.
pub get_mvts_passing_through-drops :
    (f : FahrplanTypes.MvtQueryResponse) (z : ZugTypes.MvtQueryResponse) (r : MvtQueryResponse)
    → All (λ e. get e.0 f.schedules ≡ none) f.mvts
    → get_mvts_passing_through (RpcResult.ok f) (RpcResult.ok z) ≡ ok r
    → deduplicate_all z.trains z.mvts ≡ ok r.mvts
unfolding get_mvts_passing_through
get_mvts_passing_through-drops f z r apart h =
    let (ds, e, g) = >>=-eq-ok (deduplicate_all z.trains z.mvts) _ h in
    e
    ∙ ap (λ l. ok l)
        (sym (
            ap (λ l. ds ++ l)
              (schedule_mvts_none (retained f z) f.mvts
                (All-mono _ _ (λ m n. get-select_none _ m.0 f.schedules n) f.mvts apart))
            ∙ append_nil ds)
          ∙ ap (λ a. a.mvts) (ok-injective _ r g))
