-- ===== src/Policy/Examples.antt =====
-- The release theorems for a wiki that asks for names and mail, and tests of the definitions.
use campus_id.Shared.{
  ◌<◌, String, ◌≡◌, ◌≢◌, refl, ◌⊎◌, inl, inr, Bool, true, false, none, [], ◌∷◌, Within, here, there,
  ◌==◌, ==_iff, arith,
}
use campus_id.Shared.Sorting.{sort_by}
use campus_id.Policy.Attributes.{
  AttributeDefinition, directory, mail, display_name, student_id, definition,
}
use campus_id.Policy.Release.{
  allow, deny, ReleaseRule, ReleasePolicy, Subject, Attributes, pairwise, evaluate, denied_names,
}
use campus_id.Policy.Minimal.{Releasable, evaluate-Releasable}

abbrev allow_mail : ReleaseRule
allow_mail = record {
  id = "mail";
  effect = allow;
  attribute = mail;
  value_pattern = none;
  precedence = 100;
}

abbrev deny_mail : ReleaseRule
deny_mail = record allow_mail { id = "no-mail"; effect = deny; precedence = 10 }

abbrev wiki : ReleasePolicy
wiki = record {
  sp_entity_id = "https://wiki";
  display_name = "Wiki";
  entity_categories = [];
  subject_id_mode = pairwise;
  internal_school_official = false;
  require_encrypted_assertion = false;
  rules = allow_mail ∷ [];
}

abbrev guarded_wiki : ReleasePolicy
guarded_wiki = record wiki { rules = allow_mail ∷ deny_mail ∷ [] }

abbrev sam : Subject
sam = record { person_key = "p1"; ferpa_directory_suppressed = false }

abbrev held : Attributes
held = (student_id, "42" ∷ []) ∷ (mail, "sam@campus.edu" ∷ []) ∷ []

abbrev literal : String → String → Bool
literal pattern value = pattern == value

released_mail : (evaluate literal wiki sam held []).attributes ≡ (mail, "sam@campus.edu" ∷ []) ∷ []
unfolding evaluate definition sort_by
released_mail = refl

withheld_record : denied_names (evaluate literal wiki sam held []) ≡ student_id ∷ []
unfolding evaluate definition denied_names sort_by
withheld_record = refl

evaluate-Releasable_example : Releasable wiki sam held (mail, "sam@campus.edu" ∷ [])
unfolding evaluate definition sort_by
evaluate-Releasable_example =
    evaluate-Releasable literal wiki sam held [] (mail, "sam@campus.edu" ∷ []) here

abbrev mail_definition : AttributeDefinition
mail_definition = record {
  name = mail;
  friendly_name = "mail";
  classification = directory;
  ferpa_directory_item = true;
  multivalued = true;
}

deny_is_least :
    (s : ReleaseRule)
    → Within s guarded_wiki.rules
    → s.attribute ≡ mail
    → (s ≡ deny_mail) ⊎ (deny_mail.precedence < s.precedence)
deny_is_least s here e = inr (omega arith)
deny_is_least s (there here) e = inl refl
deny_is_least s (there (there w)) e = elim w [ ]

no_name_rule : (s : ReleaseRule) → Within s wiki.rules → s.attribute ≢ display_name
no_name_rule s here e = cc ((==_iff mail display_name).1 e)
no_name_rule s (there w) e = elim w [ ]
