-- ===== src/Nrod/Darwin/Offsets.antt =====
-- The day offsets that `update_day_offset` of tspl-nrod/src/darwin.rs gives.
use trainsplorer.Prelude.{
  ℕ, ◌+◌, ◌-◌, ◌*◌, ◌<◌, ◌≡◌, Bool, ◌&&◌, some, List, [], ◌∷◌, All, arith, ltb, leb, length, select,
}
use trainsplorer.Chrono.{second}
use trainsplorer.Nrod.Darwin.{Clock, midnight, update_day_offset, num_hours}

-- The clock after these planned times, one after the other.
unfoldable pub after_times : Clock → List ℕ → Clock
after_times c [] = c
after_times c (t ∷ ts) = after_times (update_day_offset c t) ts

-- A time that is read as past midnight, from the first.
abbrev pub wraps : ℕ → ℕ → Bool
wraps first t = ltb t first && leb 6 (num_hours (first - t))

-- A time that is not read as before midnight.
abbrev pub NotBack : ℕ → ℕ → Type 0
NotBack first t = t < first + 18 * 3600 * second

after_times-count :
    (d first : ℕ) (ts : List ℕ)
    → All (NotBack first) ts
    → d + length ts < 256
    → (after_times (record { day_offset = d; last_time = some first }) ts).day_offset
      ≡ d + length (select (wraps first) ts)
unfolding after_times update_day_offset select
after_times-count d first [] b n = omega arith
after_times-count d first (t ∷ ts) b n =
    ground (arith, b.0, after_times-count d first ts b.1, after_times-count (d + 1) first ts b.1)

-- The day offset after a train's planned times is the number of times that are six hours or more
-- before the first one, not the number of midnights crossed: each location after midnight adds one
-- day more. No time may be 18 hours or more after the first, and there are fewer than 256.
pub after_times-offset :
    (first : ℕ) (ts : List ℕ)
    → All (NotBack first) ts
    → length ts < 256
    → (after_times midnight (first ∷ ts)).day_offset ≡ length (select (wraps first) ts)
unfolding after_times update_day_offset
after_times-offset first ts b n = ground (arith, after_times-count 0 first ts b (omega arith))
