-- ===== src/Util/Rpc.antt =====
-- tspl-util/src/rpc.rs: what a caller sees of another service's answer.
use trainsplorer.Prelude.{ℕ, Bool, Option, none, some, not, ◌&&◌, nat_eq, ◌==◌, leb, if◌then◌else◌}

-- `Reqwest` is any failure of the connection, or of reading the answer.
pub data RpcError : Type 0 where
  remote_not_found remote_service_unavailable reqwest : RpcError
  remote_error : ℕ → RpcError

unfoldable pub status_code : RpcError → ℕ
status_code remote_not_found = 404
status_code remote_service_unavailable = 503
status_code (remote_error code) = 502
status_code reqwest = 500

pub data RpcResult {ℓ} (A : Type ℓ) : Type ℓ where
  ok : A → RpcResult A
  err : RpcError → RpcResult A

-- `StatusCode::is_success`
abbrev pub is_success : ℕ → Bool
is_success status = leb 200 status && leb status 299

-- `req_with_headers`, from the status of the response and its body as the caller reads it: `none`
-- where it does not parse.
unfoldable pub receive {ℓ} : {A : Type ℓ} → ℕ → Option A → RpcResult A
receive status body =
    if status == 404
    then err remote_not_found
    else if status == 503
    then err remote_service_unavailable
    else if not (is_success status)
    then err (remote_error status)
    else elim body [ some ret ↦ ok ret | none ↦ err reqwest ]
