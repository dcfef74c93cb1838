-- ===== src/Util/Examples.antt =====
-- The theorem about times, for twenty minutes past midnight and half an hour.
use trainsplorer.Prelude.{◌+◌, ◌*◌, ◌≤◌, ◌↔◌, refl, arith}
use trainsplorer.Chrono.{proleptic, second, day}
use trainsplorer.Util.Time.{calculate_non_midnight_aware_times, calculate_times_exact}

calculate_times_exact_example :
    (((calculate_non_midnight_aware_times proleptic (5 * day + 1200 * second) (1800 * second)).0
        ≤ proleptic.time (5 * day + 2400 * second))
      × (proleptic.time (5 * day + 2400 * second)
          ≤ (calculate_non_midnight_aware_times proleptic
              (5 * day + 1200 * second)
              (1800 * second)).1))
    ↔ ((5 * day + 1200 * second ≤ 5 * day + 2400 * second + 1800 * second)
        × (5 * day + 2400 * second ≤ 5 * day + 1200 * second + 1800 * second))
calculate_times_exact_example =
    calculate_times_exact proleptic (5 * day + 1200 * second) (1800 * second)
      (5 * day + 2400 * second) (omega arith) refl (omega arith)
