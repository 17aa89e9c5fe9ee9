-- ===== src/Mfa/Examples.antt =====
-- Assurance at concrete methods.
use campus_id.Shared.{◌+◌, ◌≤◌, ◌≡◌, ◌↔◌, true, [], ◌∷◌, contains}
use campus_id.Authz.Engine.{aal2}
use campus_id.Mfa.Assurance.{mfa, max_span, elevated, satisfies_aal2}
use campus_id.Mfa.Evidence.{elevated_supported}

elevated_supported_example :
    let after = elevated ("pwd" ∷ []) "otp" 100 200 max_span in
    ((after.acr ≡ aal2) ↔ ((satisfies_aal2 after.amr ≡ true) × (200 ≤ 100 + max_span)))
    × ((contains mfa after.amr ≡ true) ↔ (after.acr ≡ aal2))
elevated_supported_example = elevated_supported ("pwd" ∷ []) "otp" 100 200 max_span
