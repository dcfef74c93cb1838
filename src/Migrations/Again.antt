-- ===== src/Migrations/Again.antt =====
-- A second run of `run_pending_migrations` of tspl-sqlite/src/migrations.rs.
use trainsplorer.Prelude.{
  ℕ, String, ◌≤◌, ◌≡◌, refl, sym, ap, subst, ◌∙◌, inl, inr, false, Option, some, List, [], ◌∷◌,
  ◌++◌, All, All-mono, All-append, All-of_In, In-All, In-append_left, In-append_right, In-map,
  In-map_of, In-select, In-select_of, arith, nat_eq, Bool-cases, Option-cases, ltb, map, select,
  select_none,
}
use mathlib.Core.List.{append_assoc, append-nil}
use trainsplorer.Migrations.{
  MigrationEntry, Migration, done, Connection, last_of, run_pending_migrations,
}
use trainsplorer.Migrations.Pending.{
  Ascending, is_pending, Below, largest_id, largest_id-Below, largest_id-le, last_id,
  last_of-largest, entry, applied, apply_scripts, run_pending_migrations-pending, done≢failed,
  too_new≢done,
}

module _ {S : Type 0} (execute_batch : String → S → Option S) (clock : ℕ → ℕ) where
  apply_scripts-entries :
      (ms : List Migration) (conn conn' : Connection S)
      → apply_scripts execute_batch clock ms conn ≡ (done, conn')
      → conn'.entries ≡ conn.entries ++ map (entry execute_batch clock) ms
  unfolding apply_scripts
  apply_scripts-entries [] conn conn' h =
      ap (λ r. r.1.entries) (sym h) ∙ sym (append-nil conn.entries)
  apply_scripts-entries (m ∷ ms) conn conn' h =
      elim (Option-cases (execute_batch m.up conn.schema)) [
        | inl e ↦ absurd (done≢failed (ap (λ r. r.0) (sym (rw (e, apply_scripts) at h))))
        | inr (s, e) ↦
            apply_scripts-entries ms (applied execute_batch clock m conn s) conn'
              (rw (e, apply_scripts) at h)
            ∙ append_assoc conn.entries (entry execute_batch clock m ∷ [])
                (map (entry execute_batch clock) ms)
      ]

  nothing_left : (conn : Connection S) → apply_scripts execute_batch clock [] conn ≡ (done, conn)
  unfolding apply_scripts
  nothing_left conn = refl

  not_too_new :
      (ms : List Migration) (l : Migration) (conn conn' : Connection S)
      → last_of ms ≡ some l
      → run_pending_migrations execute_batch clock ms conn ≡ (done, conn')
      → last_id conn ≤ l.id
  unfolding run_pending_migrations largest_id
  not_too_new ms l conn conn' is_last h = elim (Bool-cases (ltb l.id (last_id conn))) [
    | inl y ↦ absurd (too_new≢done (ap (λ r. r.0) (rw (is_last, y, run_pending_migrations) at h)))
    | inr n ↦ ground (arith, n)
  ]

  -- The new entries lie below the last migration, and reach every migration.
  entries-reach :
      (ms : List Migration) (conn conn' : Connection S)
      → conn'.entries
        ≡ conn.entries ++ map (entry execute_batch clock) (select (is_pending (last_id conn)) ms)
      → All (λ m. is_pending (last_id conn') m ≡ false) ms
  entries-reach ms conn conn' e = All-of_In _ ms λ m m_in.
      let below : Below (last_id conn') (
          conn.entries ++ map (entry execute_batch clock) (select (is_pending (last_id conn)) ms)) =
        subst (Below (last_id conn')) e (largest_id-Below conn'.entries) in
      let grown : last_id conn ≤ last_id conn' = largest_id-le conn.entries (last_id conn') (
        All-of_In _ conn.entries λ d d_in.
          In-All (λ d. d.id ≤ last_id conn') d _ below (In-append_left d conn.entries _ d_in)) in
      elim (Bool-cases (is_pending (last_id conn) m)) [
        | inr n ↦ ground (arith, n, grown)
        | inl y ↦
            let reached : m.id ≤ last_id conn' =
              In-All (λ d. d.id ≤ last_id conn') (entry execute_batch clock m) _ below
                (In-append_right (entry execute_batch clock m) conn.entries _ (
                  In-map_of (entry execute_batch clock) m _
                    (In-select_of (is_pending (last_id conn)) m ms m_in y))) in
            ground (arith, reached)
      ]

  entries-bounded :
      (ms : List Migration) (l : Migration) (conn conn' : Connection S)
      → Ascending ms
      → last_of ms ≡ some l
      → last_id conn ≤ l.id
      → conn'.entries
        ≡ conn.entries ++ map (entry execute_batch clock) (select (is_pending (last_id conn)) ms)
      → last_id conn' ≤ l.id
  entries-bounded ms l conn conn' asc is_last old e = largest_id-le conn'.entries l.id (
      subst (Below l.id) (sym e) (
        All-append _ conn.entries _
          (All-mono _ _ (λ d h. omega (arith, h, old)) conn.entries (largest_id-Below conn.entries))
          (All-of_In _ _ λ d d_in.
            let (m, m_in, is) = In-map (entry execute_batch clock) d _ d_in in
            subst (λ (x : MigrationEntry). x.id ≤ l.id) (sym is)
              (In-All (λ (n : Migration). n.id ≤ l.id) m ms (last_of-largest ms l asc is_last)
                (In-select _ m ms m_in).0))))

  -- With ascending ids: after a run that was done, a second run of the same migrations applies nothing
  -- and changes nothing.
  pub run_pending_migrations-again :
      (ms : List Migration) (l : Migration) (conn conn' : Connection S)
      → Ascending ms
      → last_of ms ≡ some l
      → run_pending_migrations execute_batch clock ms conn ≡ (done, conn')
      → run_pending_migrations execute_batch clock ms conn' ≡ (done, conn')
  run_pending_migrations-again ms l conn conn' asc is_last h =
      let old = not_too_new ms l conn conn' is_last h in
      let e =
        apply_scripts-entries _ conn conn' (
          sym (run_pending_migrations-pending execute_batch clock ms l conn asc is_last old) ∙ h) in
      run_pending_migrations-pending execute_batch clock ms l conn' asc is_last
        (entries-bounded ms l conn conn' asc is_last old e)
      ∙ ap (λ k. apply_scripts execute_batch clock k conn')
          (select_none (is_pending (last_id conn')) ms (entries-reach ms conn conn' e))
      ∙ nothing_left conn'
