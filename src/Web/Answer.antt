-- ===== src/Web/Answer.antt =====
-- The page of tspl-web/src/movements.rs over an answer of tspl-verknupfen.
use trainsplorer.Prelude.{
  ℕ, ◌≡◌, refl, ap, subst, inl, inr, Bool, true, false, Option, none, some, List, [], ◌∷◌, All,
  All-append, Perm, arith, nat_eq, ◌==◌, Bool-cases, Option-cases, map, sort, sort-IsSorted,
  sort-perm, IsSorted,
}
use trainsplorer.Prelude.Maps.{Map, get, is_some}
use trainsplorer.Util.Rpc.{RpcResult}
use trainsplorer.Fahrplan.Types.{Schedule, ScheduleMvt, ScheduleDetails}
use trainsplorer.Fahrplan.Types as FahrplanTypes
use trainsplorer.Zugfuhrer.Types.{Train, TrainMvt, TrainDetails}
use trainsplorer.Zugfuhrer.Types as ZugTypes
use trainsplorer.Verknupfen.{
  DeduplicatedMvtSource, VerknupfenError, schedule, train, DeduplicatedMvt, MvtQueryResponse, Seen,
  nothing_seen, see_all, times, unwrap, ok_or, deduplicate, deduplicate_all, schedule_mvt,
  schedule_mvts, retained, joined, get_mvts_passing_through, remote_invariants_violated,
}
use trainsplorer.Verknupfen as V
use trainsplorer.Verknupfen.Answer.{>>=-eq-ok, ok-injective}
use trainsplorer.Web.{
  WebResult, Origin, Backend, MovementDesc, train_origdests, sched_origdests, origin_of, describe,
  describe_all, desc_lt, get_movements_through_tiploc,
}

-- The train or the schedule that a movement is of is there.
abbrev pub HasSource : Map ℕ Schedule → Map ℕ Train → DeduplicatedMvtSource → Type 0
HasSource schedules trains (schedule s) = is_some (get s schedules) ≡ true
HasSource schedules trains (train t) = is_some (get t trains) ≡ true

abbrev AllHaveSource : Map ℕ Schedule → Map ℕ Train → List DeduplicatedMvt → Type 0
AllHaveSource schedules trains = All (λ m. HasSource schedules trains m.src)

ok_or-eq :
    {A : Type 0} (o : Option A) (e : VerknupfenError) (a : A)
    → ok_or o e ≡ V.ok a
    → is_some o ≡ true
ok_or-eq none e a h = absurd (cc)
ok_or-eq (some x) e a h = refl

deduplicate-HasSource :
    (schedules : Map ℕ Schedule) (trains : Map ℕ Train) (ms : List TrainMvt) (d : DeduplicatedMvt)
    → deduplicate trains ms ≡ V.ok d
    → HasSource schedules trains d.src
unfolding deduplicate
deduplicate-HasSource schedules trains [] d h = absurd (cc)
deduplicate-HasSource schedules trains (m ∷ ms) d h =
    let seen = see_all nothing_seen (m ∷ ms) in
    let (parent, h1, g1) =
      >>=-eq-ok (ok_or (get m.parent_train trains) remote_invariants_violated) _ h in
    let (shown, h2, g2) = >>=-eq-ok (times seen) _ g1 in
    let (tiploc, h3, g3) = >>=-eq-ok (unwrap seen.tiploc) _ g2 in
    let (action, h4, g4) = >>=-eq-ok (unwrap seen.action) _ g3 in
    subst (λ (x : DeduplicatedMvt). HasSource schedules trains x.src) (ok-injective _ d g4)
      (ok_or-eq (get m.parent_train trains) remote_invariants_violated parent h1)

deduplicate_all-AllHaveSource :
    (schedules : Map ℕ Schedule) (trains : Map ℕ Train) (groups : Map ℕ (List TrainMvt))
    (ds : List DeduplicatedMvt)
    → deduplicate_all trains groups ≡ V.ok ds
    → AllHaveSource schedules trains ds
unfolding deduplicate_all
deduplicate_all-AllHaveSource schedules trains [] ds h =
    subst (AllHaveSource schedules trains) (ok-injective [] ds h) tt
deduplicate_all-AllHaveSource schedules trains ((mid, ms) ∷ rest) ds h =
    let (d, h1, g1) = >>=-eq-ok (deduplicate trains ms) _ h in
    let (ds', h2, g2) = >>=-eq-ok (deduplicate_all trains rest) _ g1 in
    subst (AllHaveSource schedules trains) (ok-injective (d ∷ ds') ds g2) (
      deduplicate-HasSource schedules trains ms d h1,
      deduplicate_all-AllHaveSource schedules trains rest ds' h2,
    )

schedule_mvts-AllHaveSource :
    (schedules : Map ℕ Schedule) (trains : Map ℕ Train) (mvts : Map ℕ ScheduleMvt)
    → AllHaveSource schedules trains (schedule_mvts schedules mvts)
unfolding schedule_mvts
schedule_mvts-AllHaveSource schedules trains [] = tt
schedule_mvts-AllHaveSource schedules trains ((sid, m) ∷ rest) =
    elim (Option-cases (get sid schedules)) [
      | inl e ↦ rw (e, schedule_mvts) (schedule_mvts-AllHaveSource schedules trains rest)
      | inr (s, e) ↦
          rw (e, schedule_mvts) (ap is_some e, schedule_mvts-AllHaveSource schedules trains rest)
    ]

-- Every movement of an answer of tspl-verknupfen has its train or schedule in the answer.
answer-AllHaveSource :
    (f : FahrplanTypes.MvtQueryResponse) (z : ZugTypes.MvtQueryResponse) (r : MvtQueryResponse)
    → get_mvts_passing_through (RpcResult.ok f) (RpcResult.ok z) ≡ V.ok r
    → AllHaveSource r.schedules r.trains r.mvts
unfolding get_mvts_passing_through
answer-AllHaveSource f z r h =
    let (ds, h1, g1) = >>=-eq-ok (deduplicate_all z.trains z.mvts) _ h in
    subst (λ (x : MvtQueryResponse). AllHaveSource x.schedules x.trains x.mvts)
      (ok-injective (joined f z ds) r g1)
      (All-append _ ds _ (deduplicate_all-AllHaveSource (retained f z) z.trains z.mvts ds h1)
        (schedule_mvts-AllHaveSource (retained f z) z.trains f.mvts))

abbrev pub is_ok {ℓ} : {A : Type ℓ} → RpcResult A → Bool
is_ok (RpcResult.ok a) = true
is_ok (RpcResult.err e) = false

-- The details of every train and every schedule of the answer can be fetched.
pub record Fetches (b : Backend) (r : MvtQueryResponse) : Type 0 where
  pub trains : All (λ (e : ℕ × Train). is_ok (b.train_details e.1.tspl_id) ≡ true) r.trains
  pub schedules :
      All (λ (e : ℕ × Schedule). is_ok (b.schedule_details e.1.tspl_id) ≡ true) r.schedules

is_ok-eq : {A : Type 0} (r : RpcResult A) → is_ok r ≡ true → (a : A) × (r ≡ RpcResult.ok a)
is_ok-eq (RpcResult.ok a) h = (a, refl)
is_ok-eq (RpcResult.err e) h = absurd (cc)

train_origdests-has :
    (b : Backend) (ts : Map ℕ Train) (t : ℕ)
    → All (λ (e : ℕ × Train). is_ok (b.train_details e.1.tspl_id) ≡ true) ts
    → is_some (get t ts) ≡ true
    → is_some (get t (train_origdests b ts)) ≡ true
unfolding train_origdests get
train_origdests-has b [] t f h = h
train_origdests-has b ((id, x) ∷ ts) t f h =
    let (d, e) = is_ok-eq (b.train_details x.tspl_id) f.0 in
    let rest = train_origdests-has b ts t f.1 in
    elim (Bool-cases (id == t)) [
      | inl y ↦ rw (e, train_origdests, y) refl
      | inr n ↦ rw (e, train_origdests, n) (rest (rw n at h))
    ]

sched_origdests-has :
    (b : Backend) (ss : Map ℕ Schedule) (s : ℕ)
    → All (λ (e : ℕ × Schedule). is_ok (b.schedule_details e.1.tspl_id) ≡ true) ss
    → is_some (get s ss) ≡ true
    → is_some (get s (sched_origdests b ss)) ≡ true
unfolding sched_origdests get
sched_origdests-has b [] s f h = h
sched_origdests-has b ((id, x) ∷ ss) s f h =
    let (d, e) = is_ok-eq (b.schedule_details x.tspl_id) f.0 in
    let rest = sched_origdests-has b ss s f.1 in
    elim (Bool-cases (id == s)) [
      | inl y ↦ rw (e, sched_origdests, y) refl
      | inr n ↦ rw (e, sched_origdests, n) (rest (rw n at h))
    ]

is_some-eq : {A : Type 0} (o : Option A) → is_some o ≡ true → (a : A) × (o ≡ some a)
is_some-eq none h = absurd (cc)
is_some-eq (some a) h = (a, refl)

-- The time and the action, by which the rows are sorted.
abbrev pub shown_at : MovementDesc → ℕ × ℕ
shown_at d = (d._time, d._action)

abbrev pub reported_at : DeduplicatedMvt → ℕ × ℕ
reported_at m = (m.time.time, m.action)

module _ (b : Backend) (r : MvtQueryResponse) (fetches : Fetches b r) where
  origin_of-answers :
      (src : DeduplicatedMvtSource)
      → HasSource r.schedules r.trains src
      → (o : Origin) × (origin_of r (train_origdests b r.trains) (sched_origdests b r.schedules) src
          ≡ WebResult.ok o)
  unfolding origin_of
  origin_of-answers (schedule s) h =
      let (x, e) = is_some-eq (get s r.schedules) h in
      let (od, g) = is_some-eq _ (sched_origdests-has b r.schedules s fetches.schedules h) in
      ((some x.tspl_id, none, od, false), rw (e, g) refl)
  origin_of-answers (train t) h =
      let (x, e) = is_some-eq (get t r.trains) h in
      let (od, g) = is_some-eq _ (train_origdests-has b r.trains t fetches.trains h) in
      ((none, some x.tspl_id, od, x.cancelled), rw (e, g) refl)

  describe_all-answers :
      (ms : List DeduplicatedMvt)
      → AllHaveSource r.schedules r.trains ms
      → (ds : List MovementDesc) × (describe_all b r
            (train_origdests b r.trains)
            (sched_origdests b r.schedules)
            ms
          ≡ WebResult.ok ds)
        × (map shown_at ds ≡ map reported_at ms)
  unfolding describe_all
  describe_all-answers [] h = ([], refl, refl)
  describe_all-answers (m ∷ ms) h =
      let (o, e) = origin_of-answers m.src h.0 in
      let (ds, g, same) = describe_all-answers ms h.1 in
      (describe b m o ∷ ds, rw (e, g) refl, ap (λ l. (m.time.time, m.action) ∷ l) same)

desc_lt-asym : (a c : MovementDesc) → desc_lt a c ≡ true → desc_lt c a ≡ false
desc_lt-asym a c h = ground (arith, h)

-- If tspl-verknupfen answers, and the details of every train and every schedule of its answer can be
-- fetched, then the page is shown: it has one row for each movement of the answer, with its time and
-- action, and the rows are sorted by these; in particular, no movement lacks its train or schedule.
pub get_movements_through_tiploc-answers :
    (b : Backend) (f : FahrplanTypes.MvtQueryResponse) (z : ZugTypes.MvtQueryResponse)
    (r : MvtQueryResponse)
    → get_mvts_passing_through (RpcResult.ok f) (RpcResult.ok z) ≡ V.ok r
    → Fetches b r
    → (ds : List MovementDesc) × (map shown_at ds ≡ map reported_at r.mvts)
      × (get_movements_through_tiploc b (RpcResult.ok r) ≡ WebResult.ok (sort desc_lt ds))
      × IsSorted desc_lt (sort desc_lt ds)
      × Perm (sort desc_lt ds) ds
unfolding get_movements_through_tiploc
get_movements_through_tiploc-answers b f z r h fetches =
    let (ds, e, same) = describe_all-answers b r fetches r.mvts (answer-AllHaveSource f z r h) in
    (ds, same, rw e refl, sort-IsSorted desc_lt desc_lt-asym ds, sort-perm desc_lt ds)
