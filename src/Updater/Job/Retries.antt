-- ===== src/Updater/Job/Retries.antt =====
-- How often tspl-fahrplan-updater/src/updater.rs tries, and how long it waits.
use trainsplorer.Updater.Engine.{Engine}
use trainsplorer.Prelude.{
  ℕ, zero, suc, ◌+◌, ◌*◌, ◌^◌, ◌≤◌, ◌<◌, ◌≡◌, refl, sym, ap, subst, ◌∙◌, true, false, none, some,
  List, [], ◌∷◌, ◌++◌, arith, nat_eq, ltb,
}
use mathlib.Core.List.{append_assoc, append-nil}
use native.Mathlib.Nat.{pow-succ', mul_assoc, le-mul_of_pos_right}
use trainsplorer.Fahrplan.Types.{FahrplanDb}
use trainsplorer.Updater.Job.{u32, World, updated, timed_out, do_update, update_loop, update}

-- The waits of so many tries that failed: each is twice the one before, as a `u32`, which wraps.
unfoldable pub waits : ℕ → ℕ → List ℕ
waits zero t = []
waits (suc k) t = t ∷ waits k (u32 (t * 2))

abbrev pub total : List ℕ → ℕ
total [] = 0
total (t ∷ ts) = t + total ts

pow-pos : (k : ℕ) → 0 < 2 ^ k
pow-pos zero = omega arith
pow-pos (suc k) = let rest = pow-pos k in let double = pow-succ' 2 k in omega (arith, rest, double)

-- As long as the doubling does not leave a `u32`, `k` waits and the first once more come to `2 ^ k`
-- times the first.
pub waits-total : (k t : ℕ) → t * 2 ^ k < 2 ^ 32 → total (waits k t) + t ≡ t * 2 ^ k
unfolding waits
waits-total zero t h = omega arith
waits-total (suc k) t h =
    let double : t * 2 ^ suc k ≡ t * 2 * 2 ^ k =
      ap (λ n. t * n) (pow-succ' 2 k) ∙ sym (mul_assoc t 2 (2 ^ k)) in
    let grows = le-mul_of_pos_right (t * 2) (pow-pos k) in
    let small : t * 2 < 2 ^ 32 = omega (arith, grows, double, h) in
    let here : u32 (t * 2) ≡ t * 2 = omega (arith, small) in
    let rest = waits-total k (t * 2) (omega (arith, h, double)) in
    rw here (omega (arith, rest, double))

module _ (sq : Engine) (w : World) (retries : ℕ) (small : retries + 1 < 2 ^ 32) where
  -- One try that fails, with tries left.
  update_loop-fails :
      (fuel try cur timeout : ℕ) (slept : List ℕ) (db : FahrplanDb)
      → do_update sq w try db ≡ none
      → cur < retries
      → update_loop sq w (suc fuel) retries try cur timeout slept db
        ≡ update_loop sq w fuel retries
            (suc try)
            (cur + 1)
            (u32 (timeout * 2))
            (slept ++ timeout ∷ [])
            db
  unfolding update_loop
  update_loop-fails fuel try cur timeout slept db e left =
      let next : u32 (cur + 1) ≡ cur + 1 = omega (arith, small, left) in
      let more : ltb retries (cur + 1) ≡ false = ground (arith, left) in
      rw (e, next, more, update_loop) refl

  update_loop-updated :
      (k fuel try cur timeout : ℕ) (slept : List ℕ) (db db' : FahrplanDb)
      → k < fuel
      → cur + k ≤ retries
      → ((i : ℕ) → i < k → do_update sq w (try + i) db ≡ none)
      → do_update sq w (try + k) db ≡ some db'
      → update_loop sq w fuel retries try cur timeout slept db
        ≡ updated db' (slept ++ waits k timeout)
  unfolding update_loop waits
  update_loop-updated k zero try cur timeout slept db db' lt le fails ok =
      absurd (omega (arith, lt))
  update_loop-updated zero (suc fuel) try cur timeout slept db db' lt le fails ok =
      let here : do_update sq w try db ≡ some db' =
        subst (λ n. do_update sq w n db ≡ some db') (omega arith) ok in
      rw (here, update_loop, append-nil slept) refl
  update_loop-updated (suc k) (suc fuel) try cur timeout slept db db' lt le fails ok =
      let here : do_update sq w try db ≡ none =
        subst (λ n. do_update sq w n db ≡ none) (omega arith) (fails 0 (omega arith)) in
      update_loop-fails fuel try cur timeout slept db here (omega (arith, le))
      ∙ update_loop-updated k fuel (suc try) (cur + 1) (u32 (timeout * 2)) (slept ++ timeout ∷ [])
          db db' (omega (arith, lt)) (omega (arith, le))
          (λ i i_lt.
            subst (λ n. do_update sq w n db ≡ none) (omega arith)
              (fails (suc i) (omega (arith, i_lt))))
          (subst (λ n. do_update sq w n db ≡ some db') (omega arith) ok)
      ∙ ap (updated db') (append_assoc slept (timeout ∷ []) (waits k (u32 (timeout * 2))))

  update_loop-timed_out :
      (k fuel try cur timeout : ℕ) (slept : List ℕ) (db : FahrplanDb)
      → k < fuel
      → cur + k ≡ retries
      → ((i : ℕ) → i ≤ k → do_update sq w (try + i) db ≡ none)
      → update_loop sq w fuel retries try cur timeout slept db
        ≡ timed_out (slept ++ waits k timeout)
  unfolding update_loop waits
  update_loop-timed_out k zero try cur timeout slept db lt is fails = absurd (omega (arith, lt))
  update_loop-timed_out zero (suc fuel) try cur timeout slept db lt is fails =
      let here : do_update sq w try db ≡ none =
        subst (λ n. do_update sq w n db ≡ none) (omega arith) (fails 0 (omega arith)) in
      let over : ltb retries (u32 (cur + 1)) ≡ true = ground (arith, is, small) in
      rw (here, over, update_loop, append-nil slept) refl
  update_loop-timed_out (suc k) (suc fuel) try cur timeout slept db lt is fails =
      let here : do_update sq w try db ≡ none =
        subst (λ n. do_update sq w n db ≡ none) (omega arith) (fails 0 (omega arith)) in
      update_loop-fails fuel try cur timeout slept db here (omega (arith, is))
      ∙ update_loop-timed_out k fuel (suc try) (cur + 1) (u32 (timeout * 2)) (slept ++ timeout ∷ [])
          db (omega (arith, lt)) (omega (arith, is))
          (λ i i_le.
            subst (λ n. do_update sq w n db ≡ none) (omega arith)
              (fails (suc i) (omega (arith, i_le))))
      ∙ ap timed_out (append_assoc slept (timeout ∷ []) (waits k (u32 (timeout * 2))))

  -- Where `retries + 1` is a `u32`: if one of the first `retries + 1` tries succeeds, and `k` tries fail
  -- before it, then the update succeeds with that try's database, after `k` waits, of which the first is
  -- the one given and each other is twice the one before, modulo 2 ^ 32.
  pub update-succeeds :
      (k timeout_ms : ℕ) (db db' : FahrplanDb)
      → k ≤ retries
      → ((i : ℕ) → i < k → do_update sq w i db ≡ none)
      → do_update sq w k db ≡ some db'
      → update sq w (retries + 1) retries timeout_ms db ≡ updated db' (waits k timeout_ms)
  unfolding update
  update-succeeds k timeout_ms db db' le fails ok =
      update_loop-updated k (retries + 1) 0 0 timeout_ms [] db db' (omega (arith, le))
        (omega (arith, le))
        (λ i i_lt. subst (λ n. do_update sq w n db ≡ none) (omega arith) (fails i i_lt))
        (subst (λ n. do_update sq w n db ≡ some db') (omega arith) ok)

  -- Where `retries + 1` is a `u32`: if the first `retries + 1` tries fail, and the wait, doubled
  -- `retries` times, stays within a `u32`, then the update gives up after `retries` waits, which come to
  -- `2 ^ retries - 1` times the first.
  pub update-gives_up :
      (timeout_ms : ℕ) (db : FahrplanDb)
      → timeout_ms * 2 ^ retries < 2 ^ 32
      → ((i : ℕ) → i ≤ retries → do_update sq w i db ≡ none)
      → (update sq w (retries + 1) retries timeout_ms db ≡ timed_out (waits retries timeout_ms))
        × (total (waits retries timeout_ms) + timeout_ms ≡ timeout_ms * 2 ^ retries)
  unfolding update
  update-gives_up timeout_ms db fits fails = (
    update_loop-timed_out retries (retries + 1) 0 0 timeout_ms [] db (omega arith) (omega arith)
        (λ i i_le. subst (λ n. do_update sq w n db ≡ none) (omega arith) (fails i i_le)),
    waits-total retries timeout_ms fits,
  )
