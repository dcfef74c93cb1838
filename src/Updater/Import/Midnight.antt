-- ===== src/Updater/Import/Midnight.antt =====
-- The day offsets that `midnight_check` gives (tspl-fahrplan-updater/src/import.rs).
use trainsplorer.Prelude.{
  ℕ, suc, ◌+◌, ◌*◌, ◌≤◌, ◌<◌, ◌≡◌, subst, ◌⊎◌, inl, inr, not, List, [], ◌∷◌, ◌++◌, length, arith,
  Bool-cases, if◌then◌else◌, IsSorted, IsSorted-of_is_sorted, is_sorted, Perm,
}
use mathlib.Core.List.Perm
use mathlib.Core.List.{append_assoc, append-nil}
use trainsplorer.Ntrod.Schedule.{LocationRecord, originating, intermediate, passing, terminating}
use trainsplorer.Fahrplan.Types.{ScheduleMvt, mvt_lt}
use trainsplorer.Updater.Engine.{Engine}
use trainsplorer.Updater.Import.{
  Progress, origin_mvt, arrival_mvt, departure_mvt, pass_mvt, terminus_mvt, midnight_check, push,
  convert, convert_all, import_mvts,
}

-- From a day and a time on, the movements go on in time: each is on the same day and not earlier, or
-- it is earlier by the clock and on the next day.
abbrev pub Follows : ℕ → ℕ → List ScheduleMvt → Type 0
Follows offset last [] = Unit
Follows offset last (m ∷ ms) =
    (((last ≤ m.time) × (m.day_offset ≡ offset)) ⊎ ((m.time < last) × (m.day_offset ≡ offset + 1)))
    × Follows m.day_offset m.time ms

-- What the loop has pushed so far, and where it stands.
record Pushed (p : Progress) (n : ℕ) : Type 0 where
  follows :
      (ms : List ScheduleMvt) → Follows p.day_offset p.last_time ms → Follows 0 0 (p.mvts ++ ms)
  bounded : p.day_offset ≤ n

push-Pushed :
    (p : Progress) (n : ℕ) (m : ScheduleMvt)
    → n < 255
    → Pushed p n
    → Pushed (push (midnight_check p m.time) m) (suc n)
unfolding push midnight_check
push-Pushed p n m small h = record {
  follows = λ ms f. rw append_assoc (h.follows _ (ground (arith, h.bounded), f));
  bounded = ground (arith, h.bounded);
}

Pushed-mono : (p : Progress) (n k : ℕ) → n ≤ k → Pushed p n → Pushed p k
Pushed-mono p n k le h = record { follows = h.follows; bounded = omega (arith, h.bounded) }

convert-Pushed :
    (p : Progress) (n : ℕ) (loc : LocationRecord)
    → n < 254
    → Pushed p n
    → Pushed (convert p loc) (suc (suc n))
unfolding convert
convert-Pushed p n (originating l) small h =
    Pushed-mono _ (suc n) _ (omega arith) (push-Pushed p n (origin_mvt l) (omega arith) h)
convert-Pushed p n (intermediate l) small h =
    push-Pushed _ (suc n) (departure_mvt l) (omega arith)
      (push-Pushed p n (arrival_mvt l) (omega arith) h)
convert-Pushed p n (passing l) small h =
    Pushed-mono _ (suc n) _ (omega arith) (push-Pushed p n (pass_mvt l) (omega arith) h)
convert-Pushed p n (terminating l) small h =
    Pushed-mono _ (suc n) _ (omega arith) (push-Pushed p n (terminus_mvt l) (omega arith) h)

convert_all-Pushed :
    (p : Progress) (n : ℕ) (locs : List LocationRecord)
    → n + 2 * length locs < 256
    → Pushed p n
    → Pushed (convert_all p locs) (n + 2 * length locs)
unfolding convert_all
convert_all-Pushed p n [] small h = Pushed-mono p n _ (omega arith) h
convert_all-Pushed p n (loc ∷ locs) small h =
    Pushed-mono _ (suc (suc n) + 2 * length locs) _ (omega arith) (
      convert_all-Pushed (convert p loc) (suc (suc n)) locs (omega arith)
        (convert-Pushed p n loc (omega arith) h))

-- The movements of up to 127 locations go on in time from midnight of the first day: an offset is
-- that of the movement before, and one more exactly where the clock has gone back.
pub convert_all-Follows :
    (locs : List LocationRecord)
    → length locs < 128
    → Follows 0 0 (convert_all (record { day_offset = 0; last_time = 0; mvts = [] }) locs).mvts
convert_all-Follows locs small = subst (Follows 0 0) (append-nil _) (
    (convert_all-Pushed (record { day_offset = 0; last_time = 0; mvts = [] }) 0 locs (omega arith)
        (record { follows = λ ms f. f; bounded = omega arith })).follows
      [] tt)

-- What is imported is sorted by day offset, time and action, and is a rearrangement of what the
-- locations say.
pub import_mvts-IsSorted :
    (sq : Engine) (locs : List LocationRecord)
    → IsSorted mvt_lt (import_mvts sq locs)
      × Perm
          (import_mvts sq locs)
          (convert_all (record { day_offset = 0; last_time = 0; mvts = [] }) locs).mvts
unfolding import_mvts
import_mvts-IsSorted sq locs =
    either (convert_all (record { day_offset = 0; last_time = 0; mvts = [] }) locs).mvts
  where
    either :
        (l : List ScheduleMvt)
        → IsSorted mvt_lt (if not (is_sorted mvt_lt l) then sq.sort_unstable.run l else l)
          × Perm (if not (is_sorted mvt_lt l) then sq.sort_unstable.run l else l) l
    either l = elim (Bool-cases (is_sorted mvt_lt l)) [
      | inl y ↦ rw y (IsSorted-of_is_sorted mvt_lt l y, Perm.refl l)
      | inr n ↦ rw n (sq.sort_unstable.sorted l, sq.sort_unstable.rearranged l)
    ]
