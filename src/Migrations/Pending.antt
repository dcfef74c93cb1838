-- ===== src/Migrations/Pending.antt =====
-- Which migrations `run_pending_migrations` of tspl-sqlite/src/migrations.rs applies.
use trainsplorer.Prelude.{
  ℕ, String, ◌≤◌, ◌<◌, ◌≡◌, refl, ap, ◌∙◌, inl, inr, Bool, true, false, Option, none, some, List,
  [], ◌∷◌, ◌++◌, All, All-mono, All-append, arith, nat_eq, ◌==◌, Bool-cases, Option-cases, ltb, leb,
  ◌⊎◌, select, select_all, select-yes, select-no,
}
use mathlib.Core.Option.{some-injective}
use trainsplorer.Sqlite.{any_row_none, Pairwise}
use trainsplorer.Migrations.{
  MigrationEntry, Migration, Outcome, done, failed, sqlite, database_too_new, Connection,
  latest_entry, entry_id, unwrap_or_min, last_of, insert_entry, transact, up, run_from,
  run_pending_migrations,
}

abbrev pub Ascending : List Migration → Type 0
Ascending = Pairwise (λ (m : Migration) n. m.id < n.id)

abbrev pub is_pending : ℕ → Migration → Bool
is_pending last m = ltb last m.id

-- No entry lies above.
abbrev pub Below : ℕ → List MigrationEntry → Type 0
Below last = All (λ e. e.id ≤ last)

pub done≢failed : done ≡ failed sqlite → ⊥
done≢failed h = cc

unfoldable pub largest_id : List MigrationEntry → ℕ
largest_id es = unwrap_or_min (entry_id (latest_entry es))

largest_id-cons :
    (e : MigrationEntry) (es : List MigrationEntry)
    → (largest_id (e ∷ es) ≡ e.id) × (largest_id es ≤ e.id)
      ⊎ (largest_id (e ∷ es) ≡ largest_id es) × (e.id ≤ largest_id es)
unfolding largest_id
largest_id-cons e es = elim (Option-cases (latest_entry es)) [
  | inl n ↦ inl (rw (n, latest_entry) refl, rw (n, latest_entry) (omega arith))
  | inr (l, n) ↦ elim (Bool-cases (ltb e.id l.id)) [
    | inl y ↦ inr (rw (n, latest_entry, y) refl, rw n (ground (arith, y)))
    | inr z ↦ inl (rw (n, latest_entry, z) refl, rw n (ground (arith, z)))
  ]
]

pub largest_id-Below : (es : List MigrationEntry) → Below (largest_id es) es
largest_id-Below [] = tt
largest_id-Below (e ∷ es) = elim (largest_id-cons e es) [
  | inl (is, le) ↦
      (omega (arith, is), All-mono _ _ (λ d h. omega (arith, is, le, h)) es (largest_id-Below es))
  | inr (is, le) ↦
      (omega (arith, is, le), All-mono _ _ (λ d h. omega (arith, is, h)) es (largest_id-Below es))
]

pub largest_id-le : (es : List MigrationEntry) (bound : ℕ) → Below bound es → largest_id es ≤ bound
largest_id-le [] bound h = unfold largest_id in omega arith
largest_id-le (e ∷ es) bound h = elim (largest_id-cons e es) [
  | inl (is, le) ↦ omega (arith, is, h.0)
  | inr (is, le) ↦ let rest = largest_id-le es bound h.1 in omega (arith, is, rest)
]

abbrev pub last_id : {S : Type 0} → Connection S → ℕ
last_id conn = largest_id conn.entries

pub too_new≢done : failed database_too_new ≡ done → ⊥
too_new≢done h = cc

-- In an ascending list, the last is the largest.
pub last_of-largest :
    (ms : List Migration) (l : Migration)
    → Ascending ms
    → last_of ms ≡ some l
    → All (λ m. m.id ≤ l.id) ms
last_of-largest [] l asc h = tt
last_of-largest (m ∷ []) l asc h =
    (omega (arith, ap (λ (x : Migration). x.id) (some-injective m l h)), tt)
last_of-largest (m ∷ n ∷ ms) l asc h =
    let rest = last_of-largest (n ∷ ms) l asc.1 h in (omega (arith, asc.0.0, rest.0), rest)

module _ {S : Type 0} (execute_batch : String → S → Option S) (clock : ℕ → ℕ) where
  abbrev pub entry : Migration → MigrationEntry
  entry m = record { id = m.id; timestamp = clock m.id }

  abbrev pub applied : Migration → Connection S → S → Connection S
  applied m conn s = record {
    entries = conn.entries ++ entry m ∷ [];
    foreign_keys = true;
    schema = s;
  }

  -- Scripts one after another, each with its entry, up to the first that fails.
  unfoldable pub apply_scripts : List Migration → Connection S → Outcome × Connection S
  apply_scripts [] conn = (done, conn)
  apply_scripts (m ∷ ms) conn = elim (execute_batch m.up conn.schema) [
    | none ↦ (failed sqlite, record conn { foreign_keys = false })
    | some s ↦ apply_scripts ms (applied m conn s)
  ]

  up-fails :
      (m : Migration) (conn : Connection S) (last : ℕ)
      → Below last conn.entries
      → last < m.id
      → execute_batch m.up conn.schema ≡ none
      → up execute_batch clock m conn ≡ (failed sqlite, record conn { foreign_keys = false })
  unfolding up transact
  up-fails m conn last below lt e =
      rw
        (
          any_row_none (λ d. leb m.id d.id) conn.entries
              (All-mono _ _ (λ d h. ground (arith, h, lt)) conn.entries below),
          e,
          up,
          transact,
        )
        refl

  up-succeeds :
      (m : Migration) (conn : Connection S) (last : ℕ) (s : S)
      → Below last conn.entries
      → last < m.id
      → execute_batch m.up conn.schema ≡ some s
      → up execute_batch clock m conn ≡ (done, applied m conn s)
  unfolding up transact insert_entry
  up-succeeds m conn last s below lt e =
      rw
        (
          any_row_none (λ d. leb m.id d.id) conn.entries
              (All-mono _ _ (λ d h. ground (arith, h, lt)) conn.entries below),
          e,
          any_row_none (λ d. d.id == m.id) conn.entries
              (All-mono _ _ (λ d h. ground (arith, h, lt)) conn.entries below),
          up,
          transact,
        )
        refl

  pending_all :
      (last : ℕ) (m : Migration) (ms : List Migration)
      → last < m.id
      → All (λ n. m.id < n.id) ms
      → (select (is_pending last) ms ≡ ms) × (select (is_pending m.id) ms ≡ ms)
  pending_all last m ms lt above = (
    select_all (is_pending last) ms (All-mono _ _ (λ n h. ground (arith, h, lt)) ms above),
    select_all (is_pending m.id) ms (All-mono _ _ (λ n h. ground (arith, h)) ms above),
  )

  run_from-pending :
      (last : ℕ) (ms : List Migration) (conn : Connection S)
      → Ascending ms
      → Below last conn.entries
      → run_from execute_batch clock last ms conn ≡ apply_scripts (select (is_pending last) ms) conn
  unfolding run_from apply_scripts
  run_from-pending last [] conn asc below = unfold select in refl
  run_from-pending last (m ∷ ms) conn asc below = elim (Bool-cases (ltb last m.id)) [
    | inr n ↦
        rw (n, run_from, select-no (is_pending last) m ms n)
          (run_from-pending last ms conn asc.1 below)
    | inl y ↦
        let lt : last < m.id = ground (arith, y) in
        let (all_last, all_next) = pending_all last m ms lt asc.0 in
        elim (Option-cases (execute_batch m.up conn.schema)) [
          | inl e ↦
              rw
                (
                  y,
                  up-fails m conn last below lt e,
                  run_from,
                  select-yes (is_pending last) m ms y,
                  e,
                  apply_scripts,
                )
                refl
          | inr (s, e) ↦
              rw
                (
                  y,
                  up-succeeds m conn last s below lt e,
                  run_from,
                  select-yes (is_pending last) m ms y,
                  e,
                  apply_scripts,
                  all_last,
                )
                (run_from-pending m.id ms (applied m conn s) asc.1 (
                    All-append _ conn.entries _
                      (All-mono _ _ (λ d h. omega (arith, h, lt)) conn.entries below)
                      (omega arith, tt))
                  ∙ ap (λ l. apply_scripts l (applied m conn s)) all_next)
        ]
  ]

  -- With ascending ids, and no entry above the last of them, exactly the migrations above the last
  -- entry are applied, in order, and no migration is found out of order; the first script that fails
  -- ends the run, with the foreign keys left off.
  pub run_pending_migrations-pending :
      (ms : List Migration) (l : Migration) (conn : Connection S)
      → Ascending ms
      → last_of ms ≡ some l
      → last_id conn ≤ l.id
      → run_pending_migrations execute_batch clock ms conn
        ≡ apply_scripts (select (is_pending (last_id conn)) ms) conn
  unfolding run_pending_migrations largest_id
  run_pending_migrations-pending ms l conn asc is_last old =
      let fits : ltb l.id (last_id conn) ≡ false = ground (arith, old) in
      rw (is_last, fits, run_pending_migrations)
        (run_from-pending (last_id conn) ms conn asc (largest_id-Below conn.entries))
