-- ===== src/Chrono.antt =====
-- What the crates use of `chrono`, which is not part of the repository: dates, times of day and
-- timestamps are numbers here, and the operations on them are a parameter with their documented
-- behaviour as laws. A date is a day number, a time of day its nanoseconds since midnight, and a
-- timestamp its nanoseconds since day 0, which is the first day that `chrono` can represent.
use trainsplorer.Prelude.{ℕ, ◌+◌, ◌-◌, ◌*◌, ◌/◌, ◌%◌, ◌≤◌, ◌<◌, ◌≡◌, refl, arith}

abbrev pub second : ℕ
second = 1_000_000_000

-- One day.
abbrev pub day : ℕ
day = 86400 * second

-- A signed difference of two timestamps is never taken: a duration is a number of nanoseconds.
pub record Chrono : Type 0 where
  -- `NaiveDateTime::date`, `NaiveDateTime::time`
  pub date : ℕ → ℕ
  pub time : ℕ → ℕ
  pub date_time : (ts : ℕ) → date ts * day + time ts ≡ ts
  pub time_lt : (ts : ℕ) → time ts < day
  -- `timestamp - duration` and `timestamp + duration`
  pub minus : ℕ → ℕ → ℕ
  pub plus : ℕ → ℕ → ℕ
  pub minus_lem : (ts dur : ℕ) → dur ≤ ts → minus ts dur + dur ≡ ts
  pub plus_lem : (ts dur : ℕ) → plus ts dur ≡ ts + dur
  -- `NaiveTime::from_hms`
  pub from_hms : ℕ → ℕ → ℕ → ℕ
  pub from_hms_lem :
      (h m s : ℕ) → h < 24 → m < 60 → s < 60 → from_hms h m s ≡ (h * 3600 + m * 60 + s) * second
  -- `date.weekday().number_from_monday()`
  pub number_from_monday : ℕ → ℕ
  pub weekday_pos : (d : ℕ) → 1 ≤ number_from_monday d
  pub weekday_le : (d : ℕ) → number_from_monday d ≤ 7
  -- `date.pred()`
  pub pred_date : ℕ → ℕ
  pub pred_date_lem : (d : ℕ) → 1 ≤ d → pred_date d + 1 ≡ d

-- The laws can be met.
abbrev pub proleptic : Chrono
proleptic = record {
  date = λ ts. ts / day;
  time = λ ts. ts % day;
  date_time = λ ts. omega arith;
  time_lt = λ ts. omega arith;
  minus = λ ts dur. ts - dur;
  plus = λ ts dur. ts + dur;
  minus_lem = λ ts dur h. omega arith;
  plus_lem = λ ts dur. refl;
  from_hms = λ h m s. (h * 3600 + m * 60 + s) * second;
  from_hms_lem = λ h m s p q r. refl;
  number_from_monday = λ d. d % 7 + 1;
  weekday_pos = λ d. omega arith;
  weekday_le = λ d. omega arith;
  pred_date = λ d. d - 1;
  pred_date_lem = λ d h. omega arith;
}
