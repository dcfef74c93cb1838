-- ===== src/Fahrplan/Auth/Outcome.antt =====
-- What `get_auth_schedule` answers, on every branch, in whatever order the rows come.
use trainsplorer.Prelude.{
  ℕ, ◌≤◌, String, ◌≡◌, refl, ◌↔◌, ◌⊎◌, inl, inr, Bool, true, false, not, ◌&&◌, Option, none, some,
  List, [], ◌∷◌, All, In, select, arith, nat_eq, string_eq, ◌==◌, str_lt, str_lt_irrefl,
  str_lt_trans, str_lt_weak, Bool-cases, if◌then◌else◌,
}
use mathlib.Core.Path.{fun_ext, ap}
use trainsplorer.Chrono.{Chrono}
use trainsplorer.Fahrplan.Types.{Schedule, FahrplanDb}
use trainsplorer.Fahrplan.Days.{runs_on_iso_weekday}
use trainsplorer.Fahrplan.Errors.{FahrplanResult, ok, err, stp_indicators_equal, ◌>>=◌}
use trainsplorer.Fahrplan.Auth.{consider, auth_loop, matches, get_auth_schedule}

clash_of : (a b : String) → (a == b && not (a == "C")) ≡ true → (b ≡ a) × (b ≡ "C" → ⊥)
clash_of a b h = (
  ground (arith, string_eq.beq_iff a b),
  λ e. ground (arith, string_eq.beq_iff a b, string_eq.beq_iff a "C"),
)

-- A `WHERE` clause and the loop's own test, joined.
auth_loop-select :
    (w runs : Schedule → Bool) (ret : Option Schedule) (l : List Schedule)
    → auth_loop runs ret (select w l) ≡ auth_loop (λ s. w s && runs s) ret l
unfolding auth_loop select
auth_loop-select w runs ret [] = refl
auth_loop-select w runs ret (x ∷ l) = elim (Bool-cases (w x)) [
  | inl y ↦ rw y (
      ap (λ k. (if not (runs x) then ok ret else consider x ret) >>= k)
        (fun_ext λ r. auth_loop-select w runs r l))
  | inr n ↦ rw n (auth_loop-select w runs ret l)
]

-- The schedule of the train `uid`, from one source, that is in force on the date and its weekday.
pub record Applies (c : Chrono) (uid : String) (on_date source : ℕ) (s : Schedule) : Type 0 where
  pub uid_is : s.uid ≡ uid
  pub started : s.start_date ≤ on_date
  pub not_ended : on_date ≤ s.end_date
  pub source_is : s.source ≡ source
  pub runs : runs_on_iso_weekday s.days (c.number_from_monday on_date) ≡ true

module _ (P : Schedule → Type 0) where
  -- Two rows of which both qualify, with the same indicator, which is not "C".
  abbrev pub Clash : List Schedule → Type 0
  Clash [] = ⊥
  Clash (s ∷ l) =
      (P s
        × (s.stp_indicator ≡ "C" → ⊥)
        × ((t : Schedule) × In t l × P t × (s.stp_indicator ≡ t.stp_indicator)))
      ⊎ Clash l

  abbrev pub Outcome : List Schedule → FahrplanResult (Option Schedule) → Type 0
  Outcome rows (ok none) = All (λ t. P t → ⊥) rows
  Outcome rows (ok (some s)) =
      In s rows × P s × All (λ t. P t → str_lt t.stp_indicator s.stp_indicator ≡ false) rows
  Outcome rows (err e) = (e ≡ stp_indicators_equal) × Clash rows

  skip :
      (x : Schedule) (l : List Schedule) (r : FahrplanResult (Option Schedule))
      → (P x → ⊥)
      → Outcome l r
      → Outcome (x ∷ l) r
  skip x l (ok none) n h = (n, h)
  skip x l (ok (some s)) n h = (inr h.0, h.1, ((λ px. absurd (n px)), h.2))
  skip x l (err e) n h = (h.0, inr h.1)

  module _ (o x : Schedule) (l : List Schedule) (po : P o) where
    skip_second :
        (r : FahrplanResult (Option Schedule))
        → (P x → ⊥)
        → Outcome (o ∷ l) r
        → Outcome (o ∷ (x ∷ l)) r
    skip_second (ok none) n h = absurd (h.0 po)
    skip_second (ok (some s)) n h = (
      elim h.0 [ inl e ↦ inl e | inr m ↦ inr (inr m) ],
      h.1,
      (h.2.0, ((λ px. absurd (n px)), h.2.1)),
    )
    skip_second (err e) n h = (
      h.0,
      elim h.1 [
        | inl (q, nc, (t, m, pt, same)) ↦ inl (q, nc, (t, inr m, pt, same))
        | inr q ↦ inr (inr q)
      ],
    )

    supersede :
        (r : FahrplanResult (Option Schedule))
        → P x
        → str_lt x.stp_indicator o.stp_indicator ≡ true
        → Outcome (x ∷ l) r
        → Outcome (o ∷ (x ∷ l)) r
    supersede (ok none) px lt h = absurd (h.0 px)
    supersede (ok (some s)) px lt h = (inr h.0, h.1, ((λ _. not_before), h.2))
      where
        not_before : str_lt o.stp_indicator s.stp_indicator ≡ false
        not_before =
            ground
              (arith, str_lt_trans x.stp_indicator o.stp_indicator s.stp_indicator lt, h.2.0 px)
    supersede (err e) px lt h = (h.0, inr h.1)

    keep :
        (r : FahrplanResult (Option Schedule))
        → str_lt x.stp_indicator o.stp_indicator ≡ false
        → Outcome (o ∷ l) r
        → Outcome (o ∷ (x ∷ l)) r
    keep (ok none) ge h = absurd (h.0 po)
    keep (ok (some s)) ge h = (
      elim h.0 [ inl e ↦ inl e | inr m ↦ inr (inr m) ],
      h.1,
      (
        h.2.0,
        ((λ _. str_lt_weak x.stp_indicator o.stp_indicator s.stp_indicator ge (h.2.0 po)), h.2.1),
      ),
    )
    keep (err e) ge h = (
      h.0,
      elim h.1 [
        | inl (q, nc, (t, m, pt, same)) ↦ inl (q, nc, (t, inr m, pt, same))
        | inr q ↦ inr (inr q)
      ],
    )

  module _ (runs : Schedule → Bool) (runs_iff : (s : Schedule) → (runs s ≡ true) ↔ P s) where
    not_P : (x : Schedule) → runs x ≡ false → P x → ⊥
    not_P x n px = cc ((runs_iff x).1 px)

    auth_loop-some :
        (o : Schedule) (l : List Schedule) → P o → Outcome (o ∷ l) (auth_loop runs (some o) l)
    unfolding auth_loop consider
    auth_loop-some o [] po = (inl refl, po, ((λ _. str_lt_irrefl o.stp_indicator), tt))
    auth_loop-some o (x ∷ l) po = elim (Bool-cases (runs x)) [
      | inr n ↦ rw n (skip_second o x l po _ (not_P x n) (auth_loop-some o l po))
      | inl y ↦ rw y (elim (Bool-cases (str_lt x.stp_indicator o.stp_indicator)) [
        | inl lt ↦
            rw lt
              (supersede o x l po _ ((runs_iff x).0 y) lt (auth_loop-some x l ((runs_iff x).0 y)))
        | inr ge ↦
            rw ge
              (elim (Bool-cases
                (x.stp_indicator == o.stp_indicator && not (x.stp_indicator == "C"))) [
                  | inl clash ↦ rw clash (
                    refl,
                    let f = clash_of _ _ clash in
                        inl (po, f.1, (x, inl refl, (runs_iff x).0 y, f.0)),
                  )
                  | inr fine ↦ rw fine (keep o x l po _ ge (auth_loop-some o l po))
                ])
      ])
    ]

    auth_loop-none : (l : List Schedule) → Outcome l (auth_loop runs none l)
    unfolding auth_loop consider
    auth_loop-none [] = tt
    auth_loop-none (x ∷ l) = elim (Bool-cases (runs x)) [
      | inr n ↦ rw n (skip x l _ (not_P x n) (auth_loop-none l))
      | inl y ↦ rw y (auth_loop-some x l ((runs_iff x).0 y))
    ]

matches-Applies :
    (c : Chrono) (uid : String) (on_date source : ℕ) (s : Schedule)
    → ((matches uid on_date source s && runs_on_iso_weekday s.days (c.number_from_monday on_date))
        ≡ true)
      ↔ Applies c uid on_date source s
matches-Applies c uid on_date source s = (
  λ h. ground (arith, string_eq.beq_iff s.uid uid),
  λ h. ground (arith, string_eq.beq_iff s.uid uid),
)

-- Whatever the order of the rows, the answer is one of these. A schedule: it is in the table, it
-- applies on the date, and no applying schedule has an indicator before its own. Nothing: no
-- schedule in the table applies. An error: it is `StpIndicatorsEqual`, and two rows apply that have
-- the same indicator, other than "C".
pub get_auth_schedule-Outcome :
    (c : Chrono) (db : FahrplanDb) (uid : String) (on_date source : ℕ)
    → Outcome
        (Applies c uid on_date source)
        db.schedules
        (get_auth_schedule c db uid on_date source)
unfolding get_auth_schedule
get_auth_schedule-Outcome c db uid on_date source =
    rw (auth_loop-select _ _ none db.schedules)
      (auth_loop-none _ _ (matches-Applies c uid on_date source) db.schedules)
