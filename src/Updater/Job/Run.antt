-- ===== src/Updater/Job/Run.antt =====
-- Which databases tspl-fahrplan-updater/src/db_init.rs takes over.
use trainsplorer.Prelude.{ℕ, suc, ◌≡◌, ◌⊎◌, List, [], ◌∷◌, nat_eq}
use trainsplorer.Fahrplan.Types.{ScheduleFile}

-- The sequence numbers go up by one, except after a file with the number 0.
abbrev pub Consecutive : ℕ → List ScheduleFile → Type 0
Consecutive last [] = Unit
Consecutive last (file ∷ files) =
    ((last ≡ 0) ⊎ (file.sequence ≡ suc last)) × Consecutive file.sequence files
