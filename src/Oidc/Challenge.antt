-- ===== src/Oidc/Challenge.antt =====
-- What the PKCE checks of campusid/oidc/pkce.py accept.
use campus_id.Shared.{
  ℕ, ◌≤◌, ◌≡◌, ◌≢◌, refl, ◌↔◌, true, none, some, [], ◌∷◌, arith, length, length-append, all, ◌++◌,
  ◌∙◌,
}
use campus_id.Oidc.Errors.{ok}
use campus_id.Oidc.Pkce.{
  Text, text_eq, unreserved, charset_match, rstrip_padding, compute_challenge, verify,
  assert_valid_challenge, min_verifier_length, max_verifier_length,
}
use campus_id.Oidc.Charset.{IsCharset, charset_match_iff, charset_rest-newline}
use campus_id.Oidc.Padding.{IsUnpadded, rstrip_padding_iff}

text_eq_iff : (s t : Text) → (text_eq s t ≡ true) ↔ (s ≡ t)
text_eq_iff [] [] = ((λ h. refl), (λ e. refl))
text_eq_iff [] (y ∷ ys) = grind arith
text_eq_iff (x ∷ xs) [] = grind arith
text_eq_iff (x ∷ xs) (y ∷ ys) = grind (arith, text_eq_iff xs ys)

module _ {Digest : Type 0} (sha256 : Text → Digest) (urlsafe_b64encode : Digest → Text) where
  -- `verify` refuses an absent verifier. It accepts exactly a verifier of 43 to 128 characters that
  -- are all letters, digits, `-`, `.`, `_` or `~`, or are so up to a newline that ends it, and whose
  -- SHA-256 digest in URL-safe base64 is the stored challenge followed by any number of `=`, where
  -- the challenge itself does not end in `=`.
  pub verify_exact :
      (challenge : Text)
      → (verify sha256 urlsafe_b64encode none challenge ≢ ok tt)
        × ((verifier : Text)
            → (verify sha256 urlsafe_b64encode (some verifier) challenge ≡ ok tt) ↔ (
                (min_verifier_length ≤ length verifier)
                × (length verifier ≤ max_verifier_length)
                × IsCharset verifier
                × IsUnpadded (urlsafe_b64encode (sha256 verifier)) challenge))
  unfolding verify compute_challenge
  verify_exact challenge = (
    (λ h. ground arith),
    (λ verifier.
        let encoded = urlsafe_b64encode (sha256 verifier) in
        let same = text_eq_iff (rstrip_padding encoded) challenge in
        let class = charset_match_iff verifier in
        let bare = rstrip_padding_iff encoded challenge in
        (
          (λ h.
              (ground arith, ground arith, class.0 (ground arith), bare.0 (same.0 (ground arith)))),
          (λ (low, high, c, e). let c' = class.1 c in let e' = same.1 (bare.1 e) in ground arith),
        )),
  )

-- A challenge that is present at the authorization request is accepted exactly if it has 43 characters
-- in the character set.
pub assert_valid_challenge_exact :
    (challenge : Text)
    → (assert_valid_challenge (some challenge) ≡ ok tt)
      ↔ ((length challenge ≡ min_verifier_length) × (charset_match challenge ≡ true))
unfolding assert_valid_challenge
assert_valid_challenge_exact [] = ((λ h. ground arith), (λ h. ground arith))
assert_valid_challenge_exact (c ∷ rest) =
    ((λ h. (ground arith, ground arith)), (λ (n, class). ground arith))

-- 42 unreserved characters and a newline, which is no base64url text, pass as a challenge: `$` holds
-- before a final newline.
pub newline_challenge_accepted :
    (c : ℕ) (rest : Text)
    → all unreserved (c ∷ rest) ≡ true
    → length (c ∷ rest) ≡ 42
    → assert_valid_challenge (some ((c ∷ rest) ++ (10 ∷ []))) ≡ ok tt
unfolding assert_valid_challenge charset_match
newline_challenge_accepted c rest h n =
    let size : length (rest ++ (10 ∷ [])) ≡ 42 = length-append rest (10 ∷ []) ∙ omega (arith, n) in
    let tail = charset_rest-newline rest (ground arith) in ground arith
