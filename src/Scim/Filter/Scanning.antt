-- ===== src/Scim/Filter/Scanning.antt =====
-- The tokenizer of campusid/scim/filters.py ends: each match takes at least one character.
use campus_id.Shared.{
  ℕ, zero, suc, ◌≤◌, ◌≢◌, refl, inl, inr, Bool, ◌||◌, Option, none, some, [], ◌∷◌, eqb, ltb, length,
  arith, Bool-cases, if◌then◌else◌,
}
use campus_id.Shared.Texts.{Text}
use campus_id.Scim.Filter.Syntax.{Token, quoted, Tokens, Parsed, ok, filter_error, out_of_fuel}
use campus_id.Scim.Filter.Literals.{Host}
use campus_id.Scim.Filter.Tokenizer.{
  span, taking, string_rest, some_run, optional, is_letter, is_word_char, digit_run, fraction,
  signed_run, exponent, number_tail, number_at, as_token, word_or_dot, number_or, token_at,
  token_then, scan_from, scan, tokenize, max_filter_length,
}

-- What is left, if there is a match, is no longer than `n`.
abbrev Fits {ℓ} : {A : Type ℓ} → ℕ → Option (A × Text) → Type 0
Fits n none = Unit
Fits n (some (a, rest)) = length rest ≤ n

Fits-le {ℓ} : {A : Type ℓ} (n k : ℕ) (o : Option (A × Text)) → Fits n o → n ≤ k → Fits k o
Fits-le n k none h le = tt
Fits-le n k (some (a, rest)) h le = omega (arith, h, le)

span-fits : (p : ℕ → Bool) (s : Text) → length (span p s).1 ≤ length s
span-fits p [] = omega arith
span-fits p (c ∷ s) = elim (Bool-cases (p c)) [
  | inl e ↦ rw e (omega (arith, span-fits p s))
  | inr e ↦ rw e (omega arith)
]

taking-Fits : (s : Text) (n : ℕ) (o : Option (Text × Text)) → Fits n o → Fits n (taking s o)
taking-Fits s n none h = tt
taking-Fits s n (some (t, rest)) h = h

string_rest-Fits : (s : Text) → Fits (length s) (string_rest s)
string_rest-Fits [] = tt
string_rest-Fits (c ∷ []) = elim (Bool-cases (eqb c b'"')) [
  | inl e ↦ rw e (omega arith)
  | inr e ↦ rw e tt
]
string_rest-Fits (c ∷ (d ∷ rest)) =
    let n = length (c ∷ (d ∷ rest)) in
    let escaped =
      Fits-le (length rest) n (string_rest rest) (string_rest-Fits rest) (omega arith) in
    let further =
      Fits-le (length (d ∷ rest)) n (string_rest (d ∷ rest)) (string_rest-Fits (d ∷ rest))
        (omega arith) in
    elim (Bool-cases (eqb c b'"')) [
      | inl e ↦ rw e (omega arith)
      | inr e ↦ elim (Bool-cases (eqb c b'\\')) [
        | inr f ↦ rw (e, f) (taking-Fits (c ∷ []) n (string_rest (d ∷ rest)) further)
        | inl f ↦ elim (Bool-cases (eqb d b'\n')) [
          | inl g ↦ rw (e, f, g) tt
          | inr g ↦ rw (e, f, g) (taking-Fits (c ∷ d ∷ []) n (string_rest rest) escaped)
        ]
      ]
    ]

some_run-Fits : (o : Text × Text) (n : ℕ) → length o.1 ≤ n → Fits n (some_run o)
some_run-Fits ([], rest) n h = tt
some_run-Fits (c ∷ run, rest) n h = h

optional-Fits :
    (text : Text) (o : Option (Text × Text))
    → Fits (length text) o
    → length (optional text o).1 ≤ length text
optional-Fits text none h = omega arith
optional-Fits text (some (t, rest)) h = h

-- A run that starts at a character leaves no more than what follows it.
run-Fits : (p : ℕ → Bool) (c : ℕ) (s : Text) → Fits (length s) (some_run (span p (c ∷ s)))
run-Fits p c s = elim (Bool-cases (p c)) [ inl e ↦ rw e (span-fits p s) | inr e ↦ rw e tt ]

module _ (host : Host) where
  digit_run-Fits : (s : Text) → Fits (length s) (digit_run host s)
  digit_run-Fits s = some_run-Fits (span host.is_digit s) (length s) (span-fits host.is_digit s)

  digit_run-after :
      (c : ℕ) (s : Text) (n : ℕ) → length s ≤ n → Fits n (taking (c ∷ []) (digit_run host s))
  digit_run-after c s n h =
      taking-Fits (c ∷ []) n (digit_run host s)
        (Fits-le (length s) n (digit_run host s) (digit_run-Fits s) h)

  fraction-fits : (s : Text) → length (fraction host s).1 ≤ length s
  fraction-fits [] = omega arith
  fraction-fits (c ∷ s) =
      optional-Fits (c ∷ s) (if eqb c b'.' then taking (c ∷ []) (digit_run host s) else none)
        (elim (Bool-cases (eqb c b'.')) [
          | inl e ↦ rw e (digit_run-after c s (length (c ∷ s)) (omega arith))
          | inr e ↦ rw e tt
        ])

  signed_run-Fits : (s : Text) → Fits (length s) (signed_run host s)
  signed_run-Fits [] = tt
  signed_run-Fits (c ∷ s) = elim (Bool-cases (eqb c b'-' || eqb c b'+')) [
    | inl e ↦ rw e (digit_run-after c s (length (c ∷ s)) (omega arith))
    | inr e ↦ rw e (digit_run-Fits (c ∷ s))
  ]

  exponent-fits : (s : Text) → length (exponent host s).1 ≤ length s
  exponent-fits [] = omega arith
  exponent-fits (c ∷ s) =
      optional-Fits (c ∷ s)
        (if eqb c b'e' || eqb c b'E' then taking (c ∷ []) (signed_run host s) else none)
        (elim (Bool-cases (eqb c b'e' || eqb c b'E')) [
          | inl e ↦ rw e (
              taking-Fits (c ∷ []) (length (c ∷ s)) (signed_run host s) (
                Fits-le (length s) (length (c ∷ s)) (signed_run host s) (signed_run-Fits s)
                  (omega arith)))
          | inr e ↦ rw e tt
        ])

  number_tail-Fits : (n : ℕ) (o : Option (Text × Text)) → Fits n o → Fits n (number_tail host o)
  number_tail-Fits n none h = tt
  number_tail-Fits n (some (t, rest)) h =
      omega (arith, h, fraction-fits rest, exponent-fits (fraction host rest).1)

  number_at-Fits : (c : ℕ) (s : Text) → Fits (length s) (number_at host c s)
  unfolding number_at
  number_at-Fits c s =
      number_tail-Fits (length s)
        (if eqb c b'-' then taking (c ∷ []) (digit_run host s) else digit_run host (c ∷ s))
        (elim (Bool-cases (eqb c b'-')) [
          | inl e ↦ rw e (digit_run-after c s (length s) (omega arith))
          | inr e ↦ rw e (run-Fits host.is_digit c s)
        ])

  word_or_dot-Fits : (c : ℕ) (s : Text) → Fits (length s) (word_or_dot host c s)
  word_or_dot-Fits c s = elim (Bool-cases (is_letter c)) [
    | inl e ↦ rw e (span-fits is_word_char s)
    | inr e ↦ elim (Bool-cases (eqb c b'.')) [
      | inl f ↦ rw (e, f) (omega arith)
      | inr f ↦ rw (e, f) tt
    ]
  ]

  number_or-Fits :
      (c : ℕ) (s : Text) (o : Option (Text × Text))
      → Fits (length s) o
      → Fits (length s) (number_or host c s o)
  number_or-Fits c s none h = word_or_dot-Fits c s
  number_or-Fits c s (some (t, rest)) h = h

  as_token-Fits :
      (kind : Text → Token) (n : ℕ) (o : Option (Text × Text))
      → Fits n o
      → Fits n (as_token host kind o)
  as_token-Fits kind n none h = tt
  as_token-Fits kind n (some (t, rest)) h = h

  token_at-Fits : (c : ℕ) (s : Text) → Fits (length s) (token_at host c s)
  unfolding token_at
  token_at-Fits c s = elim (Bool-cases (host.is_space c)) [
    | inl e0 ↦ rw e0 (span-fits host.is_space s)
    | inr e0 ↦ elim (Bool-cases (eqb c b'(')) [
      | inl e1 ↦ rw (e0, e1) (omega arith)
      | inr e1 ↦ elim (Bool-cases (eqb c b')')) [
        | inl e2 ↦ rw (e0, e1, e2) (omega arith)
        | inr e2 ↦ elim (Bool-cases (eqb c b'[')) [
          | inl e3 ↦ rw (e0, e1, e2, e3) (omega arith)
          | inr e3 ↦ elim (Bool-cases (eqb c b']')) [
            | inl e4 ↦ rw (e0, e1, e2, e3, e4) (omega arith)
            | inr e4 ↦ elim (Bool-cases (eqb c b'"')) [
              | inl e5 ↦
                  rw (e0, e1, e2, e3, e4, e5)
                    (as_token-Fits quoted (length s) (taking (c ∷ []) (string_rest s))
                      (taking-Fits (c ∷ []) (length s) (string_rest s) (string_rest-Fits s)))
              | inr e5 ↦
                  rw (e0, e1, e2, e3, e4, e5)
                    (number_or-Fits c s (number_at host c s) (number_at-Fits c s))
            ]
          ]
        ]
      ]
    ]
  ]

  token_then-fuel :
      (t : Option Token) (m : Parsed Tokens) → m ≢ out_of_fuel → token_then host t m ≢ out_of_fuel
  token_then-fuel none m h e = h e
  token_then-fuel (some t) (ok ts) h e = cc
  token_then-fuel (some t) filter_error h e = cc
  token_then-fuel (some t) out_of_fuel h e = h refl

  scan_from-fuel :
      (continue : Text → Parsed Tokens) (n : ℕ) (o : Option (Option Token × Text))
      → Fits n o
      → ((s : Text) → length s ≤ n → continue s ≢ out_of_fuel)
      → scan_from host continue o ≢ out_of_fuel
  scan_from-fuel continue n none h k e = cc
  scan_from-fuel continue n (some (t, rest)) h k e = token_then-fuel t (continue rest) (k rest h) e

  scan-fuel : (fuel : ℕ) (s : Text) → length s ≤ fuel → scan host fuel s ≢ out_of_fuel
  unfolding scan
  scan-fuel fuel [] l e = cc
  scan-fuel zero (c ∷ s) l e = absurd (omega (arith, l))
  scan-fuel (suc fuel) (c ∷ s) l e =
      scan_from-fuel (scan host fuel) (length s) (token_at host c s) (token_at-Fits c s)
        (λ t h. scan-fuel fuel t (omega (arith, h, l))) e

  pub tokenize-fuel : (source : Text) → tokenize host source ≢ out_of_fuel
  unfolding tokenize
  tokenize-fuel source = elim (Bool-cases (ltb max_filter_length (length source))) [
    | inl e ↦ rw e (λ h. cc)
    | inr e ↦ rw e (scan-fuel (length source) source (omega arith))
  ]
