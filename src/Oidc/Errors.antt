-- ===== src/Oidc/Errors.antt =====
-- campusid/oidc/errors.py and the reason codes of campusid/errors.py that the provider's grants use.
use campus_id.Shared.{String, Bool, true, false}

pub data ReasonCode : Type 0 where
  grant_invalid grant_revoked grant_reuse_detected : ReasonCode
  pkce_required pkce_method_unsupported pkce_verification_failed : ReasonCode
  unknown_client redirect_uri_mismatch : ReasonCode

-- An `OAuthError` with its public `error`, and its subclass `GrantReuse`. The detail is for the log.
pub data Refusal : Type 0 where
  oauth_error : String → ReasonCode → Refusal
  grant_reuse : String → ReasonCode → Refusal

abbrev pub invalid_grant : String
invalid_grant = "invalid_grant"

abbrev pub invalid_request : String
invalid_request = "invalid_request"

pub data Outcome {ℓ} (A : Type ℓ) : Type ℓ where
  ok : A → Outcome A
  err : Refusal → Outcome A

abbrev reason_of : Refusal → ReasonCode
reason_of (oauth_error e r) = r
reason_of (grant_reuse e r) = r

abbrev never_redirected : ReasonCode → Bool
never_redirected unknown_client = true
never_redirected redirect_uri_mismatch = true
never_redirected _ = false

-- `may_be_redirected`
unfoldable pub may_be_redirected : Refusal → Bool
may_be_redirected refusal = elim (never_redirected (reason_of refusal)) [
  | true ↦ false
  | false ↦ true
]
