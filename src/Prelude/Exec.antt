-- ===== src/Prelude/Exec.antt =====
-- Exceptions, and code that reads and writes a state and may raise. What was written before a raise
-- stays written, so the state comes back beside the error too.
use Prim.Native.String.{String}
use agentware.Prelude.Value.{Value}

-- `RouteError` of the MCP route, and its subclasses
pub data RouteClass : Type 0 where
  route session_ended policy_denied manifest_drift upstream header_mismatch : RouteClass

-- The exception classes that the source names; `other` is any exception of a collaborator.
pub data Error : Type 0 where
  permission_error type_error key_error value_error attribute_error os_error : String → Error
  bundle_fetch_error bundle_parse_error retries_exhausted : String → Error
  authorize_error : (reason_class detail : String) → Error
  step_not_allowed : (tool detail : String) → Error
  manifest_error : (code message : String) → Error
  line_too_long malformed_line contract_mismatch_line : String → Error
  mcp_route_error route_not_local : String → Error
  route_error : RouteClass → (code message reason decision_id : Value) → Error
  tool_manifest_sync_error : String → Error
  other : String → Error

pub data Result {ℓ} (A : Type ℓ) : Type ℓ where
  ok : A → Result A
  raise : Error → Result A

abbrev pub Exec {ℓ κ} : Type ℓ → Type κ → Type (ℓ ⊔ κ)
Exec W A = W → Result A × W

module _ {ℓ κ} {W : Type ℓ} {A : Type κ} where
  abbrev pub pure : A → Exec W A
  pure a w = (ok a, w)

  abbrev pub throw : Error → Exec W A
  throw e w = (raise e, w)

  abbrev pub lift : Result A → Exec W A
  lift r w = (r, w)

module _ {ℓ κ μ} {W : Type ℓ} {A : Type κ} {B : Type μ} where
  abbrev pub continue : Result A → (A → Exec W B) → Exec W B
  continue (ok a) f w = f a w
  continue (raise e) f w = (raise e, w)

  infixl 5 ◌>>=◌ ◌>>◌
  abbrev pub ◌>>=◌ : Exec W A → (A → Exec W B) → Exec W B
  ◌>>=◌ m f w = let (r, w') = m w in continue r f w'

  abbrev pub ◌>>◌ : Exec W A → Exec W B → Exec W B
  m >> k = m >>= λ _. k
