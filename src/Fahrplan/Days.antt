-- ===== src/Fahrplan/Days.antt =====
-- tspl-fahrplan/src/types.rs: `ScheduleDays`, seven bits for the days of the week. `insert` and
-- `contains` of the bit set are the bit operations that they stand for.
use Prim.Native.Nat.{bit_and, bit_or}
use trainsplorer.Prelude.{
  ℕ, ◌≡◌, refl, Bool, true, false, Option, none, some, ◌&&◌, arith, sym, zero, suc, not, ltb,
  Bool-cases, inl, inr, nat_eq, ◌==◌, if◌then◌else◌,
}
use trainsplorer.Ntrod.Days.{Days, value_for_iso_weekday}

abbrev insert_if : Bool → ℕ → ℕ → ℕ
insert_if runs flag bits = if runs then bit_or bits flag else bits

-- `From<NtrodDays> for ScheduleDays`
unfoldable pub from_ntrod : Days → ℕ
from_ntrod d =
    let ret : ℕ = 0 in
    let ret = insert_if d.mon 1 ret in
    let ret = insert_if d.tue 2 ret in
    let ret = insert_if d.wed 4 ret in
    let ret = insert_if d.thu 8 ret in
    let ret = insert_if d.fri 16 ret in let ret = insert_if d.sat 32 ret in insert_if d.sun 64 ret

unfoldable pub from_iso_weekday : ℕ → Option ℕ
from_iso_weekday wd =
    if wd == 1
    then some 1
    else if wd == 2
    then some 2
    else if wd == 3
    then some 4
    else if wd == 4
    then some 8
    else if wd == 5
    then some 16
    else if wd == 6
    then some 32
    else if wd == 7
    then some 64
    else none

abbrev contains : ℕ → Option ℕ → Bool
contains bits none = false
contains bits (some flag) = bit_and bits flag == flag

unfoldable pub runs_on_iso_weekday : ℕ → ℕ → Bool
unfolding from_iso_weekday
runs_on_iso_weekday bits wd = contains bits (from_iso_weekday wd)

abbrev pub or_false : Option Bool → Bool
or_false none = false
or_false (some b) = b

-- Evaluation over both values of a flag.
abbrev both : (Bool → Bool) → Bool
both p = p true && p false

both_sound : (p : Bool → Bool) → both p ≡ true → (b : Bool) → p b ≡ true
both_sound p h true = ground arith
both_sound p h false = ground arith

same : Bool → Bool → Bool
same true b = b
same false b = not b

eq_of_same : (a b : Bool) → same a b ≡ true → a ≡ b
unfolding same
eq_of_same true b h = sym h
eq_of_same false true h = cc
eq_of_same false false h = refl

abbrev week : Bool → Bool → Bool → Bool → Bool → Bool → Bool → Days
week a b c d e f g = record { mon = a; tue = b; wed = c; thu = d; fri = e; sat = f; sun = g }

agrees : ℕ → Days → Bool
unfolding from_ntrod runs_on_iso_weekday value_for_iso_weekday same
agrees wd d = same (runs_on_iso_weekday (from_ntrod d) wd) (or_false (value_for_iso_weekday d wd))

all_weeks : (Days → Bool) → Bool
all_weeks p =
    both λ a. both λ b. both λ c. both λ d. both λ e. both λ f. both λ g. p (week a b c d e f g)

all_weeks_sound : (p : Days → Bool) → all_weeks p ≡ true → (d : Days) → p d ≡ true
unfolding all_weeks
all_weeks_sound p h d =
    let m0 =
      both_sound
        (λ a. both λ b. both λ c. both λ d. both λ e. both λ f. both λ g. p (week a b c d e f g)) h
        d.mon in
    let m1 =
      both_sound (λ b. both λ c. both λ w. both λ e. both λ f. both λ g. p (week d.mon b c w e f g))
        m0 d.tue in
    let m2 =
      both_sound (λ c. both λ w. both λ e. both λ f. both λ g. p (week d.mon d.tue c w e f g)) m1
        d.wed in
    let m3 =
      both_sound (λ w. both λ e. both λ f. both λ g. p (week d.mon d.tue d.wed w e f g)) m2 d.thu in
    let m4 =
      both_sound (λ e. both λ f. both λ g. p (week d.mon d.tue d.wed d.thu e f g)) m3 d.fri in
    let m5 = both_sound (λ f. both λ g. p (week d.mon d.tue d.wed d.thu d.fri f g)) m4 d.sat in
    both_sound (λ g. p (week d.mon d.tue d.wed d.thu d.fri d.sat g)) m5 d.sun

table : (wd : ℕ) → ltb wd 8 ≡ true → all_weeks (agrees wd) ≡ true
unfolding all_weeks agrees
table zero h = refl
table (suc zero) h = refl
table (suc (suc zero)) h = refl
table (suc (suc (suc zero))) h = refl
table (suc (suc (suc (suc zero)))) h = refl
table (suc (suc (suc (suc (suc zero))))) h = refl
table (suc (suc (suc (suc (suc (suc zero)))))) h = refl
table (suc (suc (suc (suc (suc (suc (suc zero))))))) h = refl
table (suc (suc (suc (suc (suc (suc (suc (suc n)))))))) h = ground arith

-- The bit set runs on an ISO weekday exactly when the feed's record says so; on a number that is no
-- weekday neither does.
pub from_ntrod-runs_on_iso_weekday :
    (d : Days) (wd : ℕ)
    → runs_on_iso_weekday (from_ntrod d) wd ≡ or_false (value_for_iso_weekday d wd)
from_ntrod-runs_on_iso_weekday d wd = elim (Bool-cases (ltb wd 8)) [
  | inl small ↦ eq_of_same _ _ (unfold agrees in all_weeks_sound (agrees wd) (table wd small) d)
  | inr large ↦ unfold runs_on_iso_weekday value_for_iso_weekday in ground arith
]
