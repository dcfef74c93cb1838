-- ===== src/Fahrplan/Errors.antt =====
-- tspl-fahrplan/src/errors.rs: what a request may fail with. The errors of the libraries (SQL, pool,
-- job queue) are one constructor, for the code treats them alike.
use trainsplorer.Prelude.{ℕ, Option, none, some}

pub data FahrplanError : Type 0 where
  not_found invalid_path stp_indicators_equal internal : FahrplanError

unfoldable pub status_code : FahrplanError → ℕ
status_code not_found = 404
status_code invalid_path = 400
status_code _ = 500

pub data FahrplanResult {ℓ} (A : Type ℓ) : Type ℓ where
  ok : A → FahrplanResult A
  err : FahrplanError → FahrplanResult A

infixl 5 ◌>>=◌
abbrev pub ◌>>=◌ {ℓ κ} :
    {A : Type ℓ} {B : Type κ} → FahrplanResult A → (A → FahrplanResult B) → FahrplanResult B
ok a >>= f = f a
err e >>= f = err e

-- `ok_or`
abbrev pub ok_or {ℓ} : {A : Type ℓ} → Option A → FahrplanError → FahrplanResult A
ok_or none e = err e
ok_or (some a) e = ok a
