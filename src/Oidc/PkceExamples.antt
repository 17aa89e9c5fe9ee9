-- ===== src/Oidc/PkceExamples.antt =====
-- The PKCE checks at concrete texts, with the identity in place of SHA-256 and base64.
use campus_id.Shared.{ℕ, zero, suc, ◌≤◌, ◌≡◌, ◌≢◌, ◌↔◌, refl, none, some, [], ◌∷◌, ◌++◌, length}
use campus_id.Oidc.Errors.{ok}
use campus_id.Oidc.Pkce.{
  Text, charset_match, compute_challenge, verify, assert_valid_challenge, min_verifier_length,
  max_verifier_length,
}
use campus_id.Oidc.Charset.{IsCharset}
use campus_id.Oidc.Padding.{IsUnpadded}
use campus_id.Oidc.Challenge.{verify_exact, newline_challenge_accepted}

-- `n` times the character "A".
abbrev letters : ℕ → Text
letters zero = []
letters (suc n) = 65 ∷ letters n

abbrev same_text : Text → Text
same_text t = t

verify-letters : verify same_text same_text (some (letters 43)) (letters 43) ≡ ok tt
unfolding verify charset_match compute_challenge
verify-letters = refl

verify_exact_example :
    (verify same_text same_text none (letters 43) ≢ ok tt)
    × ((verifier : Text)
        → (verify same_text same_text (some verifier) (letters 43) ≡ ok tt) ↔ (
            (min_verifier_length ≤ length verifier)
            × (length verifier ≤ max_verifier_length)
            × IsCharset verifier
            × IsUnpadded (same_text (same_text verifier)) (letters 43)))
verify_exact_example = verify_exact same_text same_text (letters 43)

newline_challenge_accepted_example :
    assert_valid_challenge (some ((65 ∷ letters 41) ++ (10 ∷ []))) ≡ ok tt
newline_challenge_accepted_example = newline_challenge_accepted 65 (letters 41) refl refl
