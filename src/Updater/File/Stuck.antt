-- ===== src/Updater/File/Stuck.antt =====
-- What tspl-fahrplan-updater/src/import.rs makes of a file with a line that does not parse.
use trainsplorer.Prelude.{
  ℕ, ◌≡◌, refl, sym, ap, subst, ◌∙◌, inl, inr, true, All, Option-cases, none, List, [], ◌∷◌, ◌++◌,
}
use mathlib.Core.List.{append_assoc, append-nil}
use trainsplorer.Prelude.Maps.{is_some}
use trainsplorer.Updater.Engine.{Engine}
use trainsplorer.Fahrplan.Types.{FahrplanDb}
use trainsplorer.Updater.Import.{ok, ◌>>=◌}
use trainsplorer.Updater.Import.Valid.{>>=-eq-ok, ok-injective}
use trainsplorer.Updater.File.{
  Lines, Parser, FileState, at_start, on_record, on_line, on_lines, apply_schedule_records,
}
use trainsplorer.Updater.File.Valid.{ImportResult-cases}

-- Whatever comes after this text, it does not become the text of a record.
abbrev pub IsBroken : Parser → List ℕ → Type 0
IsBroken parse text = (more : List ℕ) → parse (text ++ more) ≡ none

module _ (sq : Engine) (parse : Parser) where
  on_line-none :
      (st : FileState) (uuid : ℕ) (text : List ℕ)
      → parse (st.line ++ text) ≡ none
      → on_line sq parse st (uuid, text) ≡ ok (record st { line = st.line ++ text })
  unfolding on_line
  on_line-none st uuid text e = rw (e, on_line) refl

  -- With such a text in the buffer, the rest of the file changes no database.
  on_lines-broken :
      (st : FileState) (lines : Lines)
      → IsBroken parse st.line
      → (st' : FileState) × (on_lines sq parse st lines ≡ ok st') × (st'.db ≡ st.db)
  unfolding on_lines
  on_lines-broken st [] h = (st, refl, refl)
  on_lines-broken st ((uuid, text) ∷ lines) h =
      let next : FileState = record st { line = st.line ++ text } in
      let (st', e, same) =
        on_lines-broken next lines
          (λ more. ap parse (append_assoc st.line text more) ∙ h (text ++ more)) in
      (st', rw (on_line-none st uuid text (h text), on_lines) e, same)

  -- A line that brings such a text, with the rest of the file.
  on_lines-stuck :
      (st : FileState) (uuid : ℕ) (text : List ℕ) (after : Lines)
      → st.line ≡ []
      → IsBroken parse text
      → (st' : FileState) × (on_lines sq parse st ((uuid, text) ∷ after) ≡ ok st')
        × (st'.db ≡ st.db)
  unfolding on_lines
  on_lines-stuck st uuid text after empty h =
      let broken : IsBroken parse (st.line ++ text) =
        subst (λ l. IsBroken parse (l ++ text)) (sym empty) h in
      let fails : parse (st.line ++ text) ≡ none =
        ap parse (sym (append-nil (st.line ++ text))) ∙ broken [] in
      let (st', e, same) = on_lines-broken (record st { line = st.line ++ text }) after broken in
      (st', rw (on_line-none st uuid text fails, on_lines) e, same)

  on_lines-append :
      (st : FileState) (before after : Lines)
      → on_lines sq parse st (before ++ after)
        ≡ (on_lines sq parse st before >>= λ st'. on_lines sq parse st' after)
  unfolding on_lines
  on_lines-append st [] after = refl
  on_lines-append st (line ∷ before) after = elim (ImportResult-cases (on_line sq parse st line)) [
    | inl (st1, e) ↦ rw (e, on_lines) (on_lines-append st1 before after)
    | inr (x, e) ↦ rw (e, on_lines) refl
  ]

  on_line-cleared :
      (st st' : FileState) (line : ℕ × List ℕ)
      → is_some (parse (st.line ++ line.1)) ≡ true
      → on_line sq parse st line ≡ ok st'
      → st'.line ≡ []
  unfolding on_line
  on_line-cleared st st' (uuid, text) h e = elim (Option-cases (parse (st.line ++ text))) [
    | inl n ↦ absurd (cc (rw n at h))
    | inr (rec, y) ↦
        let (st1, h1, h2) = >>=-eq-ok (on_record sq uuid st rec) _ (rw (y, on_line) at e) in
        ap (λ (s : FileState). s.line) (sym (ok-injective _ st' h2))
  ]

  -- Where every line is a record, the buffer is empty after each.
  on_lines-cleared :
      (st st' : FileState) (lines : Lines)
      → st.line ≡ []
      → All (λ (l : ℕ × List ℕ). is_some (parse l.1) ≡ true) lines
      → on_lines sq parse st lines ≡ ok st'
      → st'.line ≡ []
  unfolding on_lines
  on_lines-cleared st st' [] empty h e =
      ap (λ (s : FileState). s.line) (sym (ok-injective st st' e)) ∙ empty
  on_lines-cleared st st' (line ∷ lines) empty h e =
      let (st1, e1, e2) = >>=-eq-ok (on_line sq parse st line) _ e in
      let parsed : is_some (parse (st.line ++ line.1)) ≡ true =
        ap (λ l. is_some (parse (l ++ line.1))) empty ∙ h.0 in
      on_lines-cleared st1 st' lines (on_line-cleared st st1 line parsed e1) h.1 e2

-- Of a file whose lines are records up to one with a text that is no record, whatever comes after it,
-- the lines from that one on have no effect: the import ends as that of the lines before it alone, and
-- reports no error on their account.
pub apply_schedule_records-stuck :
    (sq : Engine) (parse : Parser) (db : FahrplanDb) (before after : Lines) (uuid : ℕ)
    (text : List ℕ)
    → All (λ (l : ℕ × List ℕ). is_some (parse l.1) ≡ true) before
    → IsBroken parse text
    → apply_schedule_records sq parse db (before ++ (uuid, text) ∷ after)
      ≡ apply_schedule_records sq parse db before
unfolding apply_schedule_records
apply_schedule_records-stuck sq parse db before after uuid text records broken =
    let split = on_lines-append sq parse (at_start db) before ((uuid, text) ∷ after) in
    elim (ImportResult-cases (on_lines sq parse (at_start db) before)) [
      | inr (x, e) ↦ rw (split, e, apply_schedule_records) refl
      | inl (st, e) ↦
          let cleared = on_lines-cleared sq parse (at_start db) st before refl records e in
          let (st', rest, same) = on_lines-stuck sq parse st uuid text after cleared broken in
          rw (split, e, rest, apply_schedule_records) (ap (λ d. (d, none)) same)
    ]
