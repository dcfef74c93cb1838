-- ===== src/Nrod/Worker.antt =====
-- What the two workers of tspl-nrod share: a map from the ids of a feed to the UUIDs of tspl-zugfuhrer,
-- and a service with a state of its own, which they make requests of. An error ends the handling of one
-- message; what was done before it stays.
pub mod Coherent
use trainsplorer.Prelude.{ℕ, String, Option, none, some, string_eq}
use trainsplorer.Prelude.Maps.{Map, insert}
use trainsplorer.Util.Rpc.{RpcResult}

pub record Worker (S : Type 0) : Type 0 where
  pub to_tspl : Map String ℕ
  pub service : S

-- A result, or an error that is logged; and the worker after it.
abbrev pub Handled {ℓ} : Type 0 → Type ℓ → Type ℓ
Handled S A = Option A × Worker S

abbrev pub answered {ℓ} : {S : Type 0} {A : Type ℓ} → Worker S → RpcResult A × S → Handled S A
answered wk (RpcResult.ok a, s) = (some a, record wk { service = s })
answered wk (RpcResult.err e, s) = (none, record wk { service = s })

infixl 5 ◌>>=◌
abbrev pub ◌>>=◌ {ℓ κ} :
    {S : Type 0} {A : Type ℓ} {B : Type κ}
    → Handled S A
    → (A × Worker S → Handled S B)
    → Handled S B
(some a, wk) >>= next = next (a, wk)
(none, wk) >>= next = (none, wk)

abbrev pub remember : {S : Type 0} → String → ℕ → Worker S → Worker S
remember id uuid wk = record wk { to_tspl = insert id uuid wk.to_tspl }
