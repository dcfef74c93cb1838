-- ===== src/Zugfuhrer/Errors.antt =====
-- tspl-zugfuhrer/src/errors.rs. The errors of SQL and reqwest are one constructor, for the code
-- treats them alike.
use trainsplorer.Prelude.{ℕ, Option, none, some, ◌≡◌, refl, ap}
use trainsplorer.Util.Rpc.{RpcError, RpcResult, remote_not_found}
use trainsplorer.Util.Rpc

pub data ZugError : Type 0 where
  not_found movements_not_found invalid_path movements_ambiguous headers_missing pool internal :
      ZugError
  rpc : RpcError → ZugError

unfoldable pub status_code : ZugError → ℕ
unfolding Rpc.status_code
status_code not_found = 404
status_code movements_not_found = 404
status_code movements_ambiguous = 409
status_code headers_missing = 400
status_code invalid_path = 400
status_code (rpc r) = Rpc.status_code r
status_code pool = 503
status_code internal = 500

pub data ZugResult {ℓ} (A : Type ℓ) : Type ℓ where
  ok : A → ZugResult A
  err : ZugError → ZugResult A

infixl 5 ◌>>=◌
abbrev pub ◌>>=◌ {ℓ κ} : {A : Type ℓ} {B : Type κ} → ZugResult A → (A → ZugResult B) → ZugResult B
ok a >>= f = f a
err e >>= f = err e

abbrev pub ok_or {ℓ} : {A : Type ℓ} → Option A → ZugError → ZugResult A
ok_or none e = err e
ok_or (some a) e = ok a

-- `?` on the result of a call: `From<RpcError>`.
abbrev pub from_rpc {ℓ} : {A : Type ℓ} → RpcResult A → ZugResult A
from_rpc (RpcResult.ok a) = ok a
from_rpc (RpcResult.err e) = err (rpc e)

-- `OptionalExt::optional`
unfoldable pub optional {ℓ} : {A : Type ℓ} → ZugResult A → ZugResult (Option A)
optional (ok x) = ok (some x)
optional (err not_found) = ok none
optional (err (rpc remote_not_found)) = ok none
optional (err e) = err e

-- Inversion of a successful chain.
pub >>=-eq-ok {ℓ κ} :
    {A : Type ℓ} {B : Type κ} (r : ZugResult A) (next : A → ZugResult B) {y : B}
    → (r >>= next) ≡ ok y
    → (x : A) × (r ≡ ok x) × (next x ≡ ok y)
>>=-eq-ok (ok x) next h = (x, refl, h)
>>=-eq-ok (err e) next h = cc

pub ok-injective {ℓ} : {A : Type ℓ} (a b : A) → ok a ≡ ok b → a ≡ b
ok-injective {A} a b e = ap value e
  where
    value : ZugResult A → A
    value (ok x) = x
    value (err _) = a

pub err≢ok {ℓ} : {A : Type ℓ} {a : A} {e : ZugError} → err e ≡ ok a → ⊥
err≢ok h = cc
