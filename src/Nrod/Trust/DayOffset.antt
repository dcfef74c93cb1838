-- ===== src/Nrod/Trust/DayOffset.antt =====
-- The day offset that tspl-nrod/src/nrod.rs sends with a movement.
use trainsplorer.Prelude.{
  ℕ, ◌+◌, ◌≡◌, ◌≢◌, ◌⊎◌, sym, ap, ◌∙◌, inl, inr, Bool, true, none, some, arith, nat_eq, ◌==◌, eq→==,
  ==→eq, Bool-cases,
}
use mathlib.Core.Option.{some-injective}
use trainsplorer.Prelude.{String}
use trainsplorer.Chrono.{Chrono}
use trainsplorer.Ntrod.Movements.{Movement}
use trainsplorer.Zugfuhrer.Types.{TrustMvtUpdate}
use trainsplorer.Nrod.Trust.{
  ZugService, trust_id_extract_day_of_month, header_fits, day_offset_of, action_of,
  movement_headers,
}

none≢some : {u : TrustMvtUpdate} → none ≡ some u → ⊥
none≢some h = cc

module _ {S : Type 0} (zs : ZugService S) (c : Chrono) (day_of_month : ℕ → ℕ)
    (is_header : String → Bool) where
  day_offset_of-days :
      (planned_ts origin : ℕ)
      → ((d : ℕ) → day_of_month d ≢ day_of_month (d + 1))
      → (c.date planned_ts ≡ origin) ⊎ (c.date planned_ts ≡ origin + 1)
      → origin + day_offset_of zs c day_of_month is_header planned_ts (day_of_month origin)
        ≡ c.date planned_ts
  day_offset_of-days planned_ts origin apart (inl e) =
      let same : (day_of_month (c.date planned_ts) == day_of_month origin) ≡ true =
        eq→== _ _ (ap day_of_month e) in
      rw same (omega (arith, e))
  day_offset_of-days planned_ts origin apart (inr e) =
      elim (Bool-cases (day_of_month (c.date planned_ts) == day_of_month origin)) [
        | inl y ↦ absurd (apart origin (sym (==→eq _ _ y) ∙ ap day_of_month e))
        | inr n ↦ rw n (omega (arith, e))
      ]

  -- What the headers hold, if they are sent.
  movement_headers-some :
      (m : Movement) (planned_ts start_dom : ℕ) (upd : TrustMvtUpdate)
      → trust_id_extract_day_of_month m.train_id ≡ some start_dom
      → movement_headers zs c day_of_month is_header m planned_ts ≡ some upd
      → record {
        stanox = m.loc_stanox;
        planned_time = c.time planned_ts;
        planned_day_offset = day_offset_of zs c day_of_month is_header planned_ts start_dom;
        planned_action = action_of m.event_type;
        actual_time = c.time m.actual_timestamp;
        actual_public_time = none;
        platform = m.platform;
      }
        ≡ upd
  unfolding movement_headers
  movement_headers-some m planned_ts start_dom upd is h =
      elim (Bool-cases (is_header m.loc_stanox)) [
        | inr n ↦ absurd (none≢some (rw (n, movement_headers) at h))
        | inl y ↦ elim (Bool-cases (header_fits zs c day_of_month is_header m.platform)) [
          | inr n ↦ absurd (none≢some (rw (y, is, n, movement_headers) at h))
          | inl z ↦ some-injective _ upd (rw (y, is, z, movement_headers) at h)
        ]
      ]

  -- If the TRUST id ends with the day of the month on which the train set off, no two days in a row have
  -- one day of the month, and the movement is planned for the day on which the train set off or for the
  -- next, then the request has the number of days since the train set off as its day offset, and the
  -- planned and the actual time of day of the message.
  pub movement_headers-day_offset :
      (m : Movement) (planned_ts origin : ℕ) (upd : TrustMvtUpdate)
      → ((d : ℕ) → day_of_month d ≢ day_of_month (d + 1))
      → trust_id_extract_day_of_month m.train_id ≡ some (day_of_month origin)
      → (c.date planned_ts ≡ origin) ⊎ (c.date planned_ts ≡ origin + 1)
      → movement_headers zs c day_of_month is_header m planned_ts ≡ some upd
      → (origin + upd.planned_day_offset ≡ c.date planned_ts)
        × (upd.planned_time ≡ c.time planned_ts)
        × (upd.actual_time ≡ c.time m.actual_timestamp)
  movement_headers-day_offset m planned_ts origin upd apart is when h =
      let e = movement_headers-some m planned_ts (day_of_month origin) upd is h in
      (
        ap (λ u. origin + u.planned_day_offset) (sym e)
            ∙ day_offset_of-days planned_ts origin apart when,
        ap (λ u. u.planned_time) (sym e),
        ap (λ u. u.actual_time) (sym e),
      )
