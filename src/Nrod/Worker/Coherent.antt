-- ===== src/Nrod/Worker/Coherent.antt =====
-- The maps of the workers of tspl-nrod: the UUIDs in them are those of trains that the service has.
use trainsplorer.Prelude.{
  ℕ, String, ◌≡◌, ◌⊎◌, refl, sym, ap, subst, inl, inr, Option, none, some, All, All-mono, string_eq,
}
use mathlib.Core.Option.{some-injective}
use trainsplorer.Prelude.Maps.{All-insert}
use trainsplorer.Util.Rpc.{RpcResult, RpcError}
use trainsplorer.Zugfuhrer.Types.{Train}
use trainsplorer.Nrod.Worker.{Worker, Handled, answered, ◌>>=◌, remember}

abbrev pub tspl_id_of : RpcResult Train → Option ℕ
tspl_id_of (RpcResult.ok t) = some t.tspl_id
tspl_id_of (RpcResult.err e) = none

pub RpcResult-cases {ℓ} :
    {A : Type ℓ} (r : RpcResult A)
    → ((a : A) × (r ≡ RpcResult.ok a)) ⊎ ((e : RpcError) × (r ≡ RpcResult.err e))
RpcResult-cases (RpcResult.ok a) = inl (a, refl)
RpcResult-cases (RpcResult.err e) = inr (e, refl)

pub answered-service :
    {S A : Type 0} (wk : Worker S) (r : RpcResult A × S)
    → (answered wk r).1 ≡ record wk { service = r.1 }
answered-service wk (RpcResult.ok a, s) = refl
answered-service wk (RpcResult.err e, s) = refl

pub answered-train :
    {S : Type 0} (wk : Worker S) (r : RpcResult Train × S) (t : Train)
    → (answered wk r).0 ≡ some t
    → tspl_id_of r.0 ≡ some t.tspl_id
answered-train wk (RpcResult.ok u, s) t h =
    ap (λ (x : Train). some x.tspl_id) (some-injective u t h)
answered-train wk (RpcResult.err e, s) t h = absurd (cc)

-- What a step leaves, if it leaves it on every way out.
pub bind-keeps :
    {S A B : Type 0} (P : Worker S → Type 0) (r : Handled S A) (next : A × Worker S → Handled S B)
    → P r.1
    → ((a : A) → r.0 ≡ some a → P (next (a, r.1)).1)
    → P (r >>= next).1
bind-keeps P (some a, wk) next h goes = goes a refl
bind-keeps P (none, wk) next h goes = h

module _ {S : Type 0} (Knows : S → ℕ → Type 0) where
  -- Every UUID in the map is one that the service knows.
  abbrev pub IsCoherent : Worker S → Type 0
  IsCoherent wk = All (λ (e : String × ℕ). Knows wk.service e.1) wk.to_tspl

  pub answered-IsCoherent :
      {A : Type 0} (wk : Worker S) (r : RpcResult A × S)
      → ((uuid : ℕ) → Knows wk.service uuid → Knows r.1 uuid)
      → IsCoherent wk
      → IsCoherent (answered wk r).1
  answered-IsCoherent wk r keeps h = subst IsCoherent (sym (answered-service wk r)) (
      All-mono (λ (e : String × ℕ). Knows wk.service e.1) (λ (e : String × ℕ). Knows r.1 e.1)
        (λ e. keeps e.1) wk.to_tspl h)

  pub remember-IsCoherent :
      (id : String) (uuid : ℕ) (wk : Worker S)
      → Knows wk.service uuid
      → IsCoherent wk
      → IsCoherent (remember id uuid wk)
  remember-IsCoherent id uuid wk known h =
      All-insert (λ (e : String × ℕ). Knows wk.service e.1) id uuid wk.to_tspl h known

  pub answered-Knows :
      {A : Type 0} (wk : Worker S) (r : RpcResult A × S) (uuid : ℕ)
      → Knows r.1 uuid
      → Knows (answered wk r).1.service uuid
  answered-Knows wk r uuid =
      subst (λ (v : Worker S). Knows v.service uuid) (sym (answered-service wk r))
