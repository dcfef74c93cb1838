-- ===== src/Verknupfen/Answer.antt =====
-- The answer of tspl-verknupfen/src/ctx.rs, from those of the two services.
use trainsplorer.Prelude.{
  ℕ, ◌≡◌, refl, sym, ap, subst, ◌∙◌, inl, inr, Option, none, some, List, [], ◌∷◌, arith, nat_eq,
  Bool-cases, Option-cases,
}
use trainsplorer.Prelude.Maps.{Map, get}
use trainsplorer.Sqlite.{any_row}
use trainsplorer.Zugfuhrer.Types.{Train, TrainMvt, source_sched_itps, source_trust, source_darwin}
use trainsplorer.Verknupfen.{
  VerknupfenResult, ok, err, panicked, ◌>>=◌, ok_or, unwrap, TimeWithSource, DeduplicatedMvt, Seen,
  nothing_seen, see_all, or_else, times, deduplicate,
}
use trainsplorer.Verknupfen.Dedup.{
  latest, is_from, see_all-time, see_all-actual, see_all-time_scheduled, see_all-pfm_suppr,
}

pub >>=-eq-ok {ℓ κ} :
    {A : Type ℓ} {B : Type κ} (r : VerknupfenResult A) (next : A → VerknupfenResult B) {y : B}
    → (r >>= next) ≡ ok y
    → (x : A) × (r ≡ ok x) × (next x ≡ ok y)
>>=-eq-ok (ok x) next h = (x, refl, h)
>>=-eq-ok (err e) next h = cc
>>=-eq-ok panicked next h = cc

pub ok-injective {ℓ} : {A : Type ℓ} (a b : A) → ok a ≡ ok b → a ≡ b
ok-injective {A} a b e = ap value e
  where
    value : VerknupfenResult A → A
    value (ok x) = x
    value (err _) = a
    value panicked = a

pub err≢ok {ℓ} : {A : Type ℓ} {a : A} {e : _} → VerknupfenResult.err e ≡ ok a → ⊥
err≢ok h = cc

panicked≢ok {ℓ} : {A : Type ℓ} {a : A} → panicked ≡ ok a → ⊥
panicked≢ok h = cc

unwrap-ok {ℓ} : {A : Type ℓ} (o : Option A) (a : A) → unwrap o ≡ ok a → o ≡ some a
unwrap-ok none a h = absurd (panicked≢ok h)
unwrap-ok (some b) a h = ap (λ x. some x) (ok-injective b a h)

-- The best time known of a movement: of the last report from TRUST, else of the last forecast from
-- Darwin, else the schedule's.
abbrev pub best_time : List TrainMvt → Option TimeWithSource
best_time ms =
    or_else (latest source_trust ms)
      (or_else (latest source_darwin ms) (latest source_sched_itps ms))

times-ok :
    (s : Seen) (t : TimeWithSource) (sched : Option TimeWithSource)
    → times s ≡ ok (t, sched)
    → or_else s.time s.time_scheduled ≡ some t
unfolding times
times-ok s t sched h = elim (Option-cases s.time) [
  | inr (u, e) ↦ rw e (ap (λ r. some r.0) (ok-injective _ (t, sched) (rw e at h)))
  | inl e ↦ elim (Bool-cases s.actual) [
    | inl y ↦ absurd (panicked≢ok (rw (e, y) at h))
    | inr n ↦
        let (u, h1, h2) = >>=-eq-ok (unwrap s.time_scheduled) _ (rw (e, n) at h) in
        rw e (unwrap-ok s.time_scheduled u h1 ∙ ap (λ r. some r.0) (ok-injective _ (t, sched) h2))
  ]
]

see_all-best_time :
    (ms : List TrainMvt)
    → or_else (see_all nothing_seen ms).time (see_all nothing_seen ms).time_scheduled ≡ best_time ms
see_all-best_time ms =
    ground (arith, see_all-time nothing_seen ms, see_all-time_scheduled nothing_seen ms)

-- What a group of movements is merged into: the best time known of it, marked as actual exactly if
-- TRUST reported it, hidden platforms if any source hides them.
abbrev pub Merges : Map ℕ Train → List TrainMvt → DeduplicatedMvt → Type 0
Merges trains ms d =
    (some d.time ≡ best_time ms)
    × (d.actual ≡ any_row (is_from source_trust) ms)
    × (d.pfm_suppr ≡ any_row (λ m. m.pfm_suppr) ms)

-- A group of movements that is merged without an error shows the time of the last report from TRUST,
-- else of the last forecast from Darwin, else of the schedule; it is marked as actual exactly if
-- TRUST reported it, and its platform is suppressed exactly if a movement asks for it.
pub deduplicate-Merges :
    (trains : Map ℕ Train) (ms : List TrainMvt) (d : DeduplicatedMvt)
    → deduplicate trains ms ≡ ok d
    → Merges trains ms d
unfolding deduplicate
deduplicate-Merges trains [] d h = absurd (err≢ok h)
deduplicate-Merges trains (m ∷ ms) d h =
    let seen = see_all nothing_seen (m ∷ ms) in
    let (parent, h1, g1) = >>=-eq-ok (ok_or (get m.parent_train trains) _) _ h in
    let ((time, sched), h2, g2) = >>=-eq-ok (times seen) _ g1 in
    let (tiploc, h3, g3) = >>=-eq-ok (unwrap seen.tiploc) _ g2 in
    let (action, h4, g4) = >>=-eq-ok (unwrap seen.action) _ g3 in
    subst (Merges trains (m ∷ ms)) (ok-injective _ d g4) (
      sym (times-ok seen time sched h2) ∙ see_all-best_time (m ∷ ms),
      see_all-actual nothing_seen (m ∷ ms),
      see_all-pfm_suppr nothing_seen (m ∷ ms),
    )
