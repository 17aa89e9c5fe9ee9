-- ===== src/Oidc/Charset.antt =====
-- The texts that `_VERIFIER_CHARSET` of campusid/oidc/pkce.py matches.
use campus_id.Shared.{
  ℕ, ◌≤◌, ◌≡◌, refl, ap, ◌↔◌, ◌⊎◌, inl, inr, true, ◌&&◌, [], ◌∷◌, ◌++◌, leb, eqb, arith, Bool-cases,
  all, Within, here, there,
}
use campus_id.Oidc.Pkce.{Text, unreserved, charset_rest, charset_match}

-- The unreserved characters of RFC 3986: letters, digits and `-`, `.`, `_`, `~`.
pub data IsUnreserved (c : ℕ) : Type 0 where
  upper : b'A' ≤ c → c ≤ b'Z' → IsUnreserved c
  lower : b'a' ≤ c → c ≤ b'z' → IsUnreserved c
  digit : b'0' ≤ c → c ≤ b'9' → IsUnreserved c
  hyphen : c ≡ b'-' → IsUnreserved c
  dot : c ≡ b'.' → IsUnreserved c
  underscore : c ≡ b'_' → IsUnreserved c
  tilde : c ≡ b'~' → IsUnreserved c

unreserved-IsUnreserved : (c : ℕ) → unreserved c ≡ true → IsUnreserved c
unreserved-IsUnreserved c h = elim (Bool-cases (leb 65 c && leb c 90)) [
  | inl e ↦ upper (ground arith) (ground arith)
  | inr e ↦ elim (Bool-cases (leb 97 c && leb c 122)) [
    | inl f ↦ lower (ground arith) (ground arith)
    | inr f ↦ elim (Bool-cases (leb 48 c && leb c 57)) [
      | inl g ↦ digit (ground arith) (ground arith)
      | inr g ↦ elim (Bool-cases (eqb c 46)) [
        | inl d ↦ dot (ground arith)
        | inr d ↦ elim (Bool-cases (eqb c 95)) [
          | inl u ↦ underscore (ground arith)
          | inr u ↦ elim (Bool-cases (eqb c 126)) [
            | inl t ↦ tilde (ground arith)
            | inr t ↦ hyphen (ground arith)
          ]
        ]
      ]
    ]
  ]
]

IsUnreserved-unreserved : (c : ℕ) → IsUnreserved c → unreserved c ≡ true
IsUnreserved-unreserved c (upper l h) = ground arith
IsUnreserved-unreserved c (lower l h) = ground arith
IsUnreserved-unreserved c (digit l h) = ground arith
IsUnreserved-unreserved c (hyphen e) = rw e refl
IsUnreserved-unreserved c (dot e) = rw e refl
IsUnreserved-unreserved c (underscore e) = rw e refl
IsUnreserved-unreserved c (tilde e) = rw e refl

-- What `_VERIFIER_CHARSET` matches: one or more unreserved characters, with a newline after them or
-- without.
pub record IsCharset (text : Text) : Type 0 where
  pub first : ℕ
  pub others : Text
  pub classed : (c : ℕ) → Within c (first ∷ others) → IsUnreserved c
  pub ending : (text ≡ first ∷ others) ⊎ (text ≡ (first ∷ others) ++ (b'\n' ∷ []))

all-unreserved : (s : Text) → ((c : ℕ) → Within c s → IsUnreserved c) → all unreserved s ≡ true
all-unreserved [] h = refl
all-unreserved (c ∷ s) h =
    let head = IsUnreserved-unreserved c (h c here) in
    let tail = all-unreserved s (λ d w. h d (there w)) in ground arith

all-IsUnreserved : (s : Text) → all unreserved s ≡ true → (c : ℕ) → Within c s → IsUnreserved c
all-IsUnreserved [] h c w = elim w [ ]
all-IsUnreserved (d ∷ s) h c here = unreserved-IsUnreserved d (ground arith)
all-IsUnreserved (d ∷ s) h c (there w) = all-IsUnreserved s (ground arith) c w

-- What `charset_rest` accepts is in the class up to a newline at its end.
charset_rest-cases :
    (s : Text)
    → charset_rest s ≡ true
    → (t : Text) × (all unreserved t ≡ true) × ((s ≡ t) ⊎ (s ≡ t ++ (10 ∷ [])))
charset_rest-cases [] h = ([], refl, inl refl)
charset_rest-cases (c ∷ []) h = elim (Bool-cases (unreserved c)) [
  | inl e ↦ (c ∷ [], rw e refl, inl refl)
  | inr e ↦ let f : c ≡ 10 = ground arith in ([], refl, inr (rw f refl))
]
charset_rest-cases (c ∷ (d ∷ s)) h =
    let (t, class, ending) = charset_rest-cases (d ∷ s) (ground arith) in
    (
      c ∷ t,
      ground arith,
      elim ending [ inl e ↦ inl (ap (λ u. c ∷ u) e) | inr e ↦ inr (ap (λ u. c ∷ u) e) ],
    )

charset_rest-all : (s : Text) → all unreserved s ≡ true → charset_rest s ≡ true
charset_rest-all [] h = refl
charset_rest-all (c ∷ []) h = ground arith
charset_rest-all (c ∷ (d ∷ s)) h =
    let tail = charset_rest-all (d ∷ s) (ground arith) in ground arith

-- A text in the character set stays in it, as the expression reads it, with a newline at its end.
pub charset_rest-newline :
    (chars : Text) → all unreserved chars ≡ true → charset_rest (chars ++ (10 ∷ [])) ≡ true
charset_rest-newline [] h = refl
charset_rest-newline (c ∷ []) h = ground arith
charset_rest-newline (c ∷ (d ∷ rest)) h =
    let tail = charset_rest-newline (d ∷ rest) (ground arith) in ground arith

IsCharset-charset_match :
    (c : ℕ) (s t : Text)
    → all unreserved (c ∷ s) ≡ true
    → (t ≡ c ∷ s) ⊎ (t ≡ (c ∷ s) ++ (10 ∷ []))
    → charset_match t ≡ true
unfolding charset_match
IsCharset-charset_match c s t class (inl e) =
    let tail = charset_rest-all s (ground arith) in rw e (ground arith)
IsCharset-charset_match c s t class (inr e) =
    let tail = charset_rest-newline s (ground arith) in rw e (ground arith)

-- The expression as the code reads it and what it matches.
pub charset_match_iff : (s : Text) → (charset_match s ≡ true) ↔ IsCharset s
unfolding charset_match
charset_match_iff [] = ((λ h. cc), (λ i. elim i.ending [ inl e ↦ cc | inr e ↦ cc ]))
charset_match_iff (c ∷ s) = (
  (λ h.
      let (t, class, ending) = charset_rest-cases s (ground arith) in
      record {
        first = c;
        others = t;
        classed = all-IsUnreserved (c ∷ t) (ground arith);
        ending = elim ending [ inl e ↦ inl (ap (λ u. c ∷ u) e) | inr e ↦ inr (ap (λ u. c ∷ u) e) ];
      }),
  (λ i.
      IsCharset-charset_match i.first i.others (c ∷ s)
        (all-unreserved (i.first ∷ i.others) i.classed) i.ending),
)
