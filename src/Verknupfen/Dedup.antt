-- ===== src/Verknupfen/Dedup.antt =====
-- What the loop of `get_mvts_passing_through` makes of one group of movements.
use trainsplorer.Prelude.{
  ℕ, ◌≡◌, refl, Bool, ◌||◌, Option, none, some, List, [], ◌∷◌, arith, nat_eq, ◌==◌, if◌then◌else◌,
}
use trainsplorer.Sqlite.{any_row}
use trainsplorer.Zugfuhrer.Types.{TrainMvt, source_sched_itps, source_trust, source_darwin}
use trainsplorer.Verknupfen.{Seen, TimeWithSource, see, see_all, time_of, or_else}

-- The time of the last movement from a source.
abbrev pub latest : ℕ → List TrainMvt → Option TimeWithSource
latest src [] = none
latest src (m ∷ ms) = or_else (latest src ms) (if m.source == src then some (time_of m) else none)

abbrev pub is_from : ℕ → TrainMvt → Bool
is_from src m = m.source == src

pub see_all-time :
    (s : Seen) (ms : List TrainMvt)
    → (see_all s ms).time
      ≡ or_else
          (latest source_trust ms)
          (if s.actual then s.time else or_else (latest source_darwin ms) s.time)
unfolding see_all
see_all-time s [] = ground arith
see_all-time s (m ∷ ms) = ground (arith, see_all-time (see s m) ms)

pub see_all-actual :
    (s : Seen) (ms : List TrainMvt)
    → (see_all s ms).actual ≡ (s.actual || any_row (is_from source_trust) ms)
unfolding see_all any_row
see_all-actual s [] = ground arith
see_all-actual s (m ∷ ms) = ground (arith, see_all-actual (see s m) ms)

pub see_all-time_scheduled :
    (s : Seen) (ms : List TrainMvt)
    → (see_all s ms).time_scheduled ≡ or_else (latest source_sched_itps ms) s.time_scheduled
unfolding see_all
see_all-time_scheduled s [] = refl
see_all-time_scheduled s (m ∷ ms) = ground (arith, see_all-time_scheduled (see s m) ms)

pub see_all-pfm_suppr :
    (s : Seen) (ms : List TrainMvt)
    → (see_all s ms).pfm_suppr ≡ (s.pfm_suppr || any_row (λ m. m.pfm_suppr) ms)
unfolding see_all any_row
see_all-pfm_suppr s [] = ground arith
see_all-pfm_suppr s (m ∷ ms) = ground (arith, see_all-pfm_suppr (see s m) ms)
