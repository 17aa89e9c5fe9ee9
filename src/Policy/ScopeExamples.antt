-- ===== src/Policy/ScopeExamples.antt =====
-- A normalisation of campusid/policy/normalize.py at concrete values.
use campus_id.Shared.{String, refl, ◌&&◌, List, [], ◌∷◌, leb, if◌then◌else◌, ◌+◌, Within, here}
use campus_id.Shared.Texts.{Text, codes}
use campus_id.Policy.Attributes.{eppn}
use campus_id.Policy.Normalize.{Host, normalize, normalize_values, normalize_value, scoped}
use campus_id.Policy.Scopes.{IsOurs, vocabulary_of, normalize-IsOurs}

abbrev lower_text : Text → Text
lower_text [] = []
lower_text (c ∷ s) = (if leb 65 c && leb c 90 then c + 32 else c) ∷ lower_text s

abbrev host : Host
host = record { strip = λ s. s; lower = lower_text }

abbrev held : List (String × List Text)
held = (eppn, codes "Sam@Campus.test" ∷ codes "sam@elsewhere.test" ∷ []) ∷ []

kept_here :
    Within
      (eppn, codes "sam@campus.test" ∷ [])
      (normalize host held (codes "campus.test")).attributes
unfolding normalize normalize_values normalize_value scoped
kept_here = here

normalize-IsOurs_example :
    IsOurs (codes "campus.test") (vocabulary_of eppn) (codes "sam@campus.test")
normalize-IsOurs_example =
    normalize-IsOurs host held (codes "campus.test") eppn (codes "sam@campus.test" ∷ [])
      (codes "sam@campus.test") kept_here here refl
