-- ===== src/Ntrod/Cif.antt =====
-- ntrod-types/src/cif.rs and fns.rs: the STP indicator, its letter, and the mend for the activation
-- feed, which swaps two of its values.
use trainsplorer.Prelude.{ℕ, String, ◌≡◌, ◌≢◌, refl, ltb, str_lt}

pub data StpIndicator : Type 0 where
  none permanent overlay new_schedule cancellation : StpIndicator

-- `stp_indicator.as_char().to_string()`
unfoldable pub as_char : StpIndicator → String
as_char none = " "
as_char permanent = "P"
as_char overlay = "O"
as_char new_schedule = "N"
as_char cancellation = "C"

unfoldable pub fix_buggy_schedule_type : StpIndicator → StpIndicator
fix_buggy_schedule_type overlay = permanent
fix_buggy_schedule_type permanent = overlay
fix_buggy_schedule_type x = x

-- The order that `derive(PartialOrd, Ord)` gives: that of the declaration.
unfoldable pub discriminant : StpIndicator → ℕ
discriminant none = 0
discriminant permanent = 1
discriminant overlay = 2
discriminant new_schedule = 3
discriminant cancellation = 4

-- Among the indicators but the empty one, the letters, compared as strings, stand in the reverse of
-- the derived order: the letter of the greater indicator comes first.
pub as_char-discriminant :
    (a b : StpIndicator)
    → a ≢ none
    → b ≢ none
    → str_lt (as_char a) (as_char b) ≡ ltb (discriminant b) (discriminant a)
unfolding as_char str_lt discriminant
as_char-discriminant none b h k = absurd (h refl)
as_char-discriminant permanent none h k = absurd (k refl)
as_char-discriminant permanent permanent h k = refl
as_char-discriminant permanent overlay h k = refl
as_char-discriminant permanent new_schedule h k = refl
as_char-discriminant permanent cancellation h k = refl
as_char-discriminant overlay none h k = absurd (k refl)
as_char-discriminant overlay permanent h k = refl
as_char-discriminant overlay overlay h k = refl
as_char-discriminant overlay new_schedule h k = refl
as_char-discriminant overlay cancellation h k = refl
as_char-discriminant new_schedule none h k = absurd (k refl)
as_char-discriminant new_schedule permanent h k = refl
as_char-discriminant new_schedule overlay h k = refl
as_char-discriminant new_schedule new_schedule h k = refl
as_char-discriminant new_schedule cancellation h k = refl
as_char-discriminant cancellation none h k = absurd (k refl)
as_char-discriminant cancellation permanent h k = refl
as_char-discriminant cancellation overlay h k = refl
as_char-discriminant cancellation new_schedule h k = refl
as_char-discriminant cancellation cancellation h k = refl
