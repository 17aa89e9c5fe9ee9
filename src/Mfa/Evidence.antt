-- ===== src/Mfa/Evidence.antt =====
-- What the claims of campusid/mfa/assurance.py rest on.
use campus_id.Shared.{
  ℕ, ◌+◌, ◌≤◌, String, ◌≡◌, ◌≢◌, refl, ◌∙◌, ◌↔◌, inl, inr, true, false, not, ◌&&◌, ◌||◌, List, [],
  ◌∷◌, ◌++◌, ◌==◌, ==_iff, ltb, arith, if◌then◌else◌, Bool-cases, contains, filter, sorted_set,
}
use campus_id.Shared.Members.{contains-sorted_set, contains-filter}
use campus_id.Authz.Engine.{aal1, aal2}
use campus_id.Mfa.Assurance.{mfa, normalise, category_count, elevated, satisfies_aal2}

contains-append :
    (x : String) (xs ys : List String) → contains x (xs ++ ys) ≡ (contains x xs || contains x ys)
contains-append x [] ys = refl
contains-append x (y ∷ xs) ys = ground (arith, contains-append x xs ys)

contains-normalise :
    (x : String) (methods : List String)
    → contains x (normalise methods) ≡ ((not (x == "") && not (x == mfa)) && contains x methods)
unfolding normalise
contains-normalise x methods =
    contains-sorted_set x (filter (λ m. not (m == "") && not (m == mfa)) methods)
    ∙ contains-filter (λ m. not (m == "") && not (m == mfa)) x methods

-- The marker adds no category.
category_count-mfa : (xs : List String) → category_count (sorted_set (mfa ∷ xs)) ≡ category_count xs
unfolding category_count
category_count-mfa xs =
    rw
      (
        contains-sorted_set "pwd" (mfa ∷ xs),
        contains-sorted_set "otp" (mfa ∷ xs),
        contains-sorted_set "hwk" (mfa ∷ xs),
        contains-sorted_set "push" (mfa ∷ xs),
        contains-sorted_set "recovery" (mfa ∷ xs),
      )
      refl

aal1_differs : aal1 ≢ aal2
aal1_differs e = let h : (aal1 == aal2) ≡ true = (==_iff aal1 aal2).1 e in cc

-- After a second factor, the session claims AAL2 exactly if the recorded methods support it by two
-- categories and the factors are no more than the span apart; the marker `mfa` is in the methods
-- exactly then.
pub elevated_supported :
    (methods : List String) (category : String) (since now span : ℕ)
    → let after = elevated methods category since now span in
      ((after.acr ≡ aal2) ↔ ((satisfies_aal2 after.amr ≡ true) × (now ≤ since + span)))
      × ((contains mfa after.amr ≡ true) ↔ (after.acr ≡ aal2))
unfolding elevated satisfies_aal2
elevated_supported methods category since now span =
    let combined = normalise (methods ++ (category ∷ [])) in
    let unmarked : contains mfa combined ≡ false =
      contains-normalise mfa (methods ++ (category ∷ [])) in
    elim (Bool-cases (ltb (category_count combined) 2 || ltb (since + span) now)) [
      | inl e ↦
          rw (e, unmarked)
            (
              ((λ h. absurd (aal1_differs h)), (λ (two, near). ground (arith, e, two, near))),
              ((λ h. cc), (λ h. absurd (aal1_differs h))),
            )
      | inr e ↦
          rw (e, category_count-mfa combined, contains-sorted_set mfa (mfa ∷ combined))
            (
              ((λ h. (ground (arith, e), ground (arith, e))), (λ h. refl)),
              ((λ h. refl), (λ h. refl)),
            )
    ]

-- The methods after a second factor are the recorded ones and the new one, without empty ones and
-- with the marker `mfa` decided by the level alone.
pub elevated_methods :
    (methods : List String) (category : String) (since now span : ℕ) (x : String)
    → let after = elevated methods category since now span in
      contains x after.amr ≡ (
        if x == mfa
        then after.acr == aal2
        else not (x == "") && (contains x methods || (category == x)))
unfolding elevated
elevated_methods methods category since now span x =
    let combined = normalise (methods ++ (category ∷ [])) in
    let held : contains x combined
        ≡ ((not (x == "") && not (x == mfa)) && contains x (methods ++ (category ∷ []))) =
      contains-normalise x (methods ++ (category ∷ [])) in
    let both = contains-append x methods (category ∷ []) in
    elim (Bool-cases (ltb (category_count combined) 2 || ltb (since + span) now)) [
      | inl e ↦ rw e (ground (arith, held, both))
      | inr e ↦
          rw (e, contains-sorted_set x (mfa ∷ combined))
            (ground (arith, held, both, ==_iff mfa x, ==_iff x mfa))
    ]
