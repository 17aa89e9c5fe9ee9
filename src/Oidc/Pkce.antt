-- ===== src/Oidc/Pkce.antt =====
-- campusid/oidc/pkce.py. A text is the list of its code points. SHA-256 and base64 are parameters.
-- `hmac.compare_digest` is equality, on the ASCII challenges that `assert_valid_challenge` lets in.
use campus_id.Shared.{
  ℕ, String, Bool, true, false, not, ◌&&◌, ◌||◌, Option, none, some, List, [], ◌∷◌, ◌==◌, leb, eqb,
  if◌then◌else◌, length,
}
use campus_id.Oidc.Errors.{
  Outcome, ok, err, oauth_error, invalid_grant, invalid_request, pkce_required,
  pkce_method_unsupported, pkce_verification_failed,
}

abbrev pub Text : Type 0
Text = List ℕ

abbrev pub text_eq : Text → Text → Bool
text_eq [] [] = true
text_eq (x ∷ xs) (y ∷ ys) = eqb x y && text_eq xs ys
text_eq _ _ = false

abbrev pub min_verifier_length : ℕ
min_verifier_length = 43

abbrev pub max_verifier_length : ℕ
max_verifier_length = 128

-- The class `[A-Za-z0-9._~-]`.
abbrev pub unreserved : ℕ → Bool
unreserved c =
    (leb 65 c && leb c 90)
    || ((leb 97 c && leb c 122)
        || ((leb 48 c && leb c 57) || (eqb c 46 || (eqb c 95 || (eqb c 126 || eqb c 45)))))

-- After one character of the class: `$` holds at the end, and before a newline that ends the text.
abbrev pub charset_rest : Text → Bool
charset_rest [] = true
charset_rest (c ∷ []) = unreserved c || eqb c 10
charset_rest (c ∷ rest) = unreserved c && charset_rest rest

-- `_VERIFIER_CHARSET.match`
unfoldable pub charset_match : Text → Bool
charset_match [] = false
charset_match (c ∷ rest) = unreserved c && charset_rest rest

-- `.rstrip("=")`
abbrev pub rstrip_padding : Text → Text
rstrip_padding [] = []
rstrip_padding (c ∷ rest) =
    let stripped = rstrip_padding rest in
    elim stripped [ [] ↦ (if eqb c 61 then [] else c ∷ []) | x ∷ xs ↦ c ∷ (x ∷ xs) ]

unfoldable pub assert_supported_method : Option String → Outcome (Unit {0})
assert_supported_method none = err (oauth_error invalid_request pkce_method_unsupported)
assert_supported_method (some method) =
    if not (method == "S256")
    then err (oauth_error invalid_request pkce_method_unsupported)
    else ok tt

unfoldable pub assert_valid_challenge : Option Text → Outcome (Unit {0})
unfolding charset_match
assert_valid_challenge none = err (oauth_error invalid_request pkce_required)
assert_valid_challenge (some []) = err (oauth_error invalid_request pkce_required)
assert_valid_challenge (some (c ∷ rest)) =
    if not (eqb (length (c ∷ rest)) min_verifier_length) || not (charset_match (c ∷ rest))
    then err (oauth_error invalid_request pkce_required)
    else ok tt

module _ {Digest : Type 0} (sha256 : Text → Digest) (urlsafe_b64encode : Digest → Text) where
  unfoldable pub compute_challenge : Text → Text
  compute_challenge verifier = rstrip_padding (urlsafe_b64encode (sha256 verifier))

  unfoldable pub verify : Option Text → Text → Outcome (Unit {0})
  unfolding charset_match compute_challenge
  verify none challenge = err (oauth_error invalid_grant pkce_verification_failed)
  verify (some verifier) challenge =
      if not
        (leb min_verifier_length (length verifier) && leb (length verifier) max_verifier_length)
      then err (oauth_error invalid_grant pkce_verification_failed)
      else if not (charset_match verifier)
      then err (oauth_error invalid_grant pkce_verification_failed)
      else if not (text_eq (compute_challenge verifier) challenge)
      then err (oauth_error invalid_grant pkce_verification_failed)
      else ok tt
