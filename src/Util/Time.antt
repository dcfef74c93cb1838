-- ===== src/Util/Time.antt =====
-- tspl-util/src/time.rs: the part of a day that a query "around" a timestamp looks at.
use trainsplorer.Prelude.{ℕ, ◌+◌, ◌*◌, ◌≤◌, ◌≡◌, ◌↔◌, arith, not, nat_eq, ◌==◌, if◌then◌else◌}
use trainsplorer.Chrono.{Chrono, second}

module _ (c : Chrono) where
  open c use {date, time, minus, plus, from_hms}

  unfoldable pub calculate_non_midnight_aware_times : ℕ → ℕ → ℕ × ℕ
  calculate_non_midnight_aware_times ts within_dur =
      let start_ts = minus ts within_dur in
      let start_time = if not (date start_ts == date ts) then from_hms 0 0 0 else time start_ts in
      let end_ts = plus ts within_dur in
      let end_time = if not (date end_ts == date ts) then from_hms 23 59 59 else time end_ts in
      (start_time, end_time)

  -- A time of the timestamp's own day lies between the two bounds exactly when it is at most the
  -- duration away from the timestamp, on either side. The instants after 23:59:59 are left out, for
  -- the upper bound saturates there; the duration must not reach back beyond the first timestamp.
  pub calculate_times_exact :
      (ts within_dur t : ℕ)
      → within_dur ≤ ts
      → date t ≡ date ts
      → time t ≤ 86399 * second
      → (((calculate_non_midnight_aware_times ts within_dur).0 ≤ time t)
          × (time t ≤ (calculate_non_midnight_aware_times ts within_dur).1))
        ↔ ((ts ≤ t + within_dur) × (t ≤ ts + within_dur))
  unfolding calculate_non_midnight_aware_times
  calculate_times_exact ts dur t h same early = ground (
    arith,
    c.minus_lem ts dur h,
    c.plus_lem ts dur,
    c.date_time ts,
    c.date_time t,
    c.date_time (minus ts dur),
    c.date_time (plus ts dur),
    c.time_lt ts,
    c.time_lt t,
    c.time_lt (minus ts dur),
    c.time_lt (plus ts dur),
    c.from_hms_lem 0 0 0,
    c.from_hms_lem 23 59 59,
  )
