-- ===== src/Nrod/Darwin.antt =====
-- tspl-nrod/src/darwin.rs: what `process_ts` makes of a Darwin train status, up to the requests that
-- it sends. `darwin-types` parses the message; a time of day is its nanoseconds. Left out is the
-- error of a text that is no value of an HTTP header.
pub mod Offsets
pub mod Requests
pub mod Worker
use trainsplorer.Prelude.{
  ℕ, ◌+◌, ◌-◌, ◌*◌, ◌/◌, ◌%◌, ◌^◌, String, Bool, true, false, Option, none, some, List, [], ◌∷◌,
  ◌++◌, ltb, leb, map, if◌then◌else◌,
}
use trainsplorer.Prelude.Maps.{is_some}
use trainsplorer.Chrono.{second}
use trainsplorer.Zugfuhrer.Types.{DarwinMvtUpdate}

-- `TsTimeData`, `PlatformData`, `CircularTimes` and `TsLocation` of darwin-types.
pub record TsTimeData : Type 0 where
  pub at : Option ℕ
  pub wet : Option ℕ
  pub et : Option ℕ
  pub delayed : Bool

pub record PlatformData : Type 0 where
  pub platform : String
  pub platsup : Bool

pub record Timings : Type 0 where
  pub wta : Option ℕ
  pub pta : Option ℕ
  pub wtd : Option ℕ
  pub ptd : Option ℕ
  pub wtp : Option ℕ

pub record TsLocation : Type 0 where
  pub tiploc : String
  pub timings : Timings
  pub arr : Option TsTimeData
  pub dep : Option TsTimeData
  pub pass : Option TsTimeData
  pub plat : Option PlatformData

pub record TsUpdate : Type 0 where
  pub time_sched : ℕ
  pub day_offset : ℕ
  pub tiploc : String
  pub action : ℕ
  pub tstd : TsTimeData
  pub platform : Option PlatformData

-- What the closure `update_day_offset` captures.
pub record Clock : Type 0 where
  pub day_offset : ℕ
  pub last_time : Option ℕ

abbrev pub midnight : Clock
midnight = record { day_offset = 0; last_time = none }

-- `Duration::num_hours`
abbrev pub num_hours : ℕ → ℕ
num_hours dur = dur / (3600 * second)

-- `day_offset` is a `u8`; as in a release build, it wraps around.
abbrev pub step_offset : ℕ → ℕ → ℕ → ℕ
step_offset day_offset last time =
    if ltb time last
    then (if leb 6 (num_hours (last - time)) then (day_offset + 1) % 2 ^ 8 else day_offset)
    else if leb 18 (num_hours (time - last))
    then (day_offset + 255) % 2 ^ 8
    else day_offset

-- `last_time` is set by the first call only.
unfoldable pub update_day_offset : Clock → ℕ → Clock
update_day_offset c time = elim c.last_time [
  | some last ↦ record c { day_offset = step_offset c.day_offset last time }
  | none ↦ record c { last_time = some time }
]

abbrev pub or_else {ℓ} : {A : Type ℓ} → Option A → Option A → Option A
or_else (some a) b = some a
or_else none b = b

-- One of the three parts of the loop over the locations: nothing, or a movement at a planned time,
-- which must be there. `none` is the error of a missing time.
pub push_update :
    Clock × List TsUpdate
    → Option TsTimeData
    → Option ℕ
    → String
    → ℕ
    → Option PlatformData
    → Option (Clock × List TsUpdate)
unfolding update_day_offset
push_update (c, updates) none planned tiploc action platform = some (c, updates)
push_update (c, updates) (some tstd) none tiploc action platform = none
push_update (c, updates) (some tstd) (some st) tiploc action platform =
    let c' = update_day_offset c st in
    some (
      c',
      updates
          ++ record {
            time_sched = st;
            day_offset = c'.day_offset;
            tiploc = tiploc;
            action = action;
            tstd = tstd;
            platform = platform;
          }
            ∷ [],
    )

infixl 5 ◌>>=◌
abbrev pub ◌>>=◌ {ℓ κ} : {A : Type ℓ} {B : Type κ} → Option A → (A → Option B) → Option B
none >>= f = none
some a >>= f = f a

pub push_location : Clock × List TsUpdate → TsLocation → Option (Clock × List TsUpdate)
unfolding push_update
push_location s loc = do
  s1 ← push_update s loc.arr (or_else loc.timings.wta loc.timings.pta) loc.tiploc 0 loc.plat
  s2 ← push_update s1 loc.dep (or_else loc.timings.wtd loc.timings.ptd) loc.tiploc 1 loc.plat
  push_update s2 loc.pass loc.timings.wtp loc.tiploc 2 none

pub push_locations : Clock × List TsUpdate → List TsLocation → Option (Clock × List TsUpdate)
unfolding push_location
push_locations s [] = some s
push_locations s (loc ∷ locs) = push_location s loc >>= λ s'. push_locations s' locs

-- Step 1 of `process_ts`.
unfoldable pub flatten_locations : List TsLocation → Option (List TsUpdate)
unfolding push_locations
flatten_locations locs = push_locations (midnight, []) locs >>= λ s. some (s.1)

-- `upd.tstd.at.or(upd.tstd.wet).or(upd.tstd.et)`
abbrev pub updated_time : TsTimeData → Option ℕ
updated_time tstd = or_else (or_else tstd.at tstd.wet) tstd.et

abbrev pub platform_of : Option PlatformData → Option String
platform_of none = none
platform_of (some pd) = some pd.platform

abbrev pub platsup_of : Option PlatformData → Bool
platsup_of none = false
platsup_of (some pd) = pd.platsup

-- The headers of the request for an update with this time.
abbrev pub request : TsUpdate → ℕ → DarwinMvtUpdate
request upd time = record {
  tiploc = upd.tiploc;
  planned_time = upd.time_sched;
  planned_day_offset = upd.day_offset;
  planned_action = upd.action;
  updated_time = time;
  time_actual = is_some upd.tstd.at;
  delay_unknown = upd.tstd.delayed;
  platform = platform_of upd.platform;
  platsup = platsup_of upd.platform;
}

-- Step 2: an update without a time is passed over; a request that fails does not stop the others.
unfoldable pub requests : List TsUpdate → List DarwinMvtUpdate
requests [] = []
requests (upd ∷ upds) = elim (updated_time upd.tstd) [
  | some time ↦ request upd time ∷ requests upds
  | none ↦ requests upds
]
