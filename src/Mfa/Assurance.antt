-- ===== src/Mfa/Assurance.antt =====
-- campusid/mfa/assurance.py. A moment is its number of seconds. The size of a set of methods that are
-- factor categories is counted over the five categories.
use campus_id.Shared.{
  ℕ, ◌+◌, String, Bool, not, ◌&&◌, ◌||◌, List, [], ◌∷◌, ◌++◌, ◌==◌, ltb, leb, if◌then◌else◌,
  contains, filter, length, sorted_set,
}
use campus_id.Authz.Engine.{aal1, aal2}

abbrev pub mfa : String
mfa = "mfa"

abbrev pub factor_categories : List String
factor_categories = "pwd" ∷ "otp" ∷ "hwk" ∷ "push" ∷ "recovery" ∷ []

abbrev pub max_span : ℕ
max_span = 43200

pub record Assurance : Type 0 where
  pub acr : String
  pub amr : List String
  pub auth_time : ℕ

-- `_normalise`
unfoldable pub normalise : List String → List String
normalise methods = sorted_set (filter (λ m. not (m == "") && not (m == mfa)) methods)

-- `len({method for method in methods if method in FACTOR_CATEGORIES})`
unfoldable pub category_count : List String → ℕ
category_count methods = length (filter (λ c. contains c methods) factor_categories)

unfoldable pub primary : List String → ℕ → Assurance
primary methods at = record { acr = aal1; amr = normalise methods; auth_time = at }

unfoldable pub elevated : List String → String → ℕ → ℕ → ℕ → Assurance
elevated methods category since now span =
    let combined = normalise (methods ++ (category ∷ [])) in
    if ltb (category_count combined) 2 || ltb (since + span) now
    then record { acr = aal1; amr = combined; auth_time = now }
    else record { acr = aal2; amr = sorted_set (mfa ∷ combined); auth_time = now }

unfoldable pub satisfies_aal2 : List String → Bool
satisfies_aal2 amr = leb 2 (category_count amr)
