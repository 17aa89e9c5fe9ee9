-- ===== src/Scim/Filter/Escapes.antt =====
-- The escapes of a string in campusid/scim/filters.py: `_unquote` replaces one after the other.
use campus_id.Shared.{ℕ, ◌≡◌, refl, ap, ◌∙◌, false, [], ◌∷◌, ◌++◌, eqb, arith}
use campus_id.Shared.Texts.{Text, has}
use campus_id.Scim.Filter.Literals.{unescape, unquote}
use campus_id.Scim.Filter.Leaves.{without_last-append}

unescape-cons :
    (from to c : ℕ) (t : Text)
    → eqb c b'\\' ≡ false
    → unescape from to (c ∷ t) ≡ c ∷ unescape from to t
unescape-cons from to c [] h = refl
unescape-cons from to c (d ∷ t) h = rw h refl

unescape-after :
    (from to : ℕ) (s t : Text)
    → has b'\\' s ≡ false
    → unescape from to (s ++ t) ≡ s ++ unescape from to t
unescape-after from to [] t h = refl
unescape-after from to (c ∷ s) t h =
    unescape-cons from to c (s ++ t) (ground arith)
    ∙ ap (λ u. c ∷ u) (unescape-after from to s t (ground arith))

-- A text without escapes, followed by an escaped backslash and the letter `n`, as a string literal.
abbrev pub backslash_n : Text → Text
backslash_n s = b'"' ∷ ((s ++ (b'\\' ∷ b'\\' ∷ b'n' ∷ [])) ++ (b'"' ∷ []))

-- A text without a backslash, written in quotes and followed there by an escaped backslash and the
-- letter `n`, is read as the text with a line break at its end, not with a backslash and an `n`.
pub unquote-backslash_n :
    (s : Text) → has b'\\' s ≡ false → unquote (backslash_n s) ≡ s ++ (b'\n' ∷ [])
unfolding unquote
unquote-backslash_n s h =
    rw
      (
        without_last-append (s ++ (b'\\' ∷ b'\\' ∷ b'n' ∷ [])) b'"',
        unescape-after b'"' b'"' s (b'\\' ∷ b'\\' ∷ b'n' ∷ []) h,
        unescape-after b'\\' b'\\' s (b'\\' ∷ b'\\' ∷ b'n' ∷ []) h,
        unescape-after b'n' b'\n' s (b'\\' ∷ b'n' ∷ []) h,
        unescape-after b'r' b'\r' s (b'\n' ∷ []) h,
        unescape-after b't' b'\t' s (b'\n' ∷ []) h,
        unescape-after b'/' b'/' s (b'\n' ∷ []) h,
      )
      refl
