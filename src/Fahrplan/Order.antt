-- ===== src/Fahrplan/Order.antt =====
-- The order of schedule movements (`Ord` and `PartialEq` for `ScheduleMvt`).
use trainsplorer.Prelude.{
  Sorter, sort, sort-IsSorted, sort-perm, ◌≡◌, true, false, arith, string_eq, ◌==◌,
}
use trainsplorer.Fahrplan.Types.{ScheduleMvt, mvt_lt, mvt_eq}

pub mvt_lt_asym : (a b : ScheduleMvt) → mvt_lt a b ≡ true → mvt_lt b a ≡ false
mvt_lt_asym a b h = ground arith

pub mvt_lt_trans : (a b c : ScheduleMvt) → mvt_lt a b ≡ true → mvt_lt b c ≡ true → mvt_lt a c ≡ true
mvt_lt_trans a b c h k = ground arith

-- Of movements that the order does not tell apart, exactly those at one place are equal: the
-- equality is finer than the order.
pub mvt_eq_of_incomparable :
    (a b : ScheduleMvt)
    → mvt_lt a b ≡ false
    → mvt_lt b a ≡ false
    → mvt_eq a b ≡ (a.tiploc == b.tiploc)
mvt_eq_of_incomparable a b h k = ground arith

-- A stable sort is such an order.
abbrev pub stable : Sorter mvt_lt
stable = record {
  run = sort mvt_lt;
  sorted = sort-IsSorted mvt_lt mvt_lt_asym;
  rearranged = sort-perm mvt_lt;
}
