-- ===== src/Ntrod/Days.antt =====
-- ntrod-types/src/schedule.rs and fns.rs: the days of the week on which a schedule runs.
use trainsplorer.Prelude.{
  ℕ, Bool, true, false, Option, none, some, List, [], ◌∷◌, nat_eq, ◌==◌, if◌then◌else◌,
}

pub record Days : Type 0 where
  pub mon : Bool
  pub tue : Bool
  pub wed : Bool
  pub thu : Bool
  pub fri : Bool
  pub sat : Bool
  pub sun : Bool

unfoldable pub all : Days
all = record { mon = true; tue = true; wed = true; thu = true; fri = true; sat = true; sun = true }

unfoldable pub value_for_iso_weekday : Days → ℕ → Option Bool
value_for_iso_weekday d wd =
    if wd == 1
    then some d.mon
    else if wd == 2
    then some d.tue
    else if wd == 3
    then some d.wed
    else if wd == 4
    then some d.thu
    else if wd == 5
    then some d.fri
    else if wd == 6
    then some d.sat
    else if wd == 7
    then some d.sun
    else none

-- `chars.next().map(|x| x == '1').unwrap_or(false)`, and the characters left.
next_is_one : List ℕ → Bool × List ℕ
next_is_one [] = (false, [])
next_is_one (c ∷ cs) = (c == b'1', cs)

unfoldable pub parse_days : List ℕ → Days
unfolding next_is_one
parse_days x =
    let (mon, x1) = next_is_one x in
    let (tue, x2) = next_is_one x1 in
    let (wed, x3) = next_is_one x2 in
    let (thu, x4) = next_is_one x3 in
    let (fri, x5) = next_is_one x4 in
    let (sat, x6) = next_is_one x5 in
    let (sun, x7) = next_is_one x6 in
    record { mon = mon; tue = tue; wed = wed; thu = thu; fri = fri; sat = sat; sun = sun }
