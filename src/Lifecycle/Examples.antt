-- ===== src/Lifecycle/Examples.antt =====
-- The lifecycle rules at a concrete rules file.
use campus_id.Shared.{
  ◌+◌, ◌≤◌, ◌≡◌, ◌↔◌, refl, true, false, not, ◌&&◌, ◌||◌, some, [], ◌∷◌, contains, is_some, Within,
  here,
}
use campus_id.Lifecycle.Document.{
  Doc, whole, text, sequence, mapping, nil, cons, Fields, end, field, ok,
}
use campus_id.Lifecycle.Rules.{
  Rule, Grant, Revocation, LifecycleRules, entitlement_of, urns_of, grants_for, revocation,
  transition,
}
use campus_id.Lifecycle.Loader.{load_rules, load_catalogue, entitlements, rules_of, max_grace_days}
use campus_id.Lifecycle.Revoking.{HasGrace}
use campus_id.Lifecycle.Transitions.{revoked_urns, transition_applies, revoked_exact}
use campus_id.Lifecycle.Loads.{revoked_in_a_year}

mail_entry : Fields
mail_entry =
    field "urn" (text "urn:mail")
      (field "display_name" (text "Mail") (field "grace_days" (whole 30) end))

student_entry : Fields
student_entry = field "id" (text "student-mail") (
    field "affiliations" (sequence (cons (text "student") nil))
      (field "grants" (sequence (cons (text "urn:mail") nil)) end))

document : Doc
unfolding mail_entry student_entry
document = mapping (
    field "entitlements" (sequence (cons (mapping mail_entry) nil))
      (field "rules" (sequence (cons (mapping student_entry) nil)) end))

abbrev student : Rule
student = record { id = "student-mail"; affiliations = "student" ∷ []; grants = "urn:mail" ∷ [] }

abbrev rules : LifecycleRules
rules = record {
  entitlements =
      record {
        urn = "urn:mail";
        display_name = "Mail";
        classification = "internal";
        grace_days = 30;
        requires_aal2 = false;
      }
      ∷ [];
  rules = student ∷ [];
}

loaded : load_rules (some document) ≡ ok rules
unfolding document mail_entry student_entry load_rules load_catalogue entitlements rules_of
loaded = refl

abbrev mail_ends : Revocation
mail_ends = record { urn = "urn:mail"; effective = 130; grace_days = 30 }

mail_revoked : Within mail_ends (transition rules ("student" ∷ []) [] 100).revoked
unfolding transition grants_for revocation
mail_revoked = here

abbrev mail_grant : Grant
mail_grant = record { urn = "urn:mail"; rule_id = "student-mail"; affiliation = "student" }

transition_applies_example :
    let delta = transition rules ("student" ∷ []) ("alum" ∷ []) 100 in
    contains "urn:mail" (urns_of (grants_for rules ("alum" ∷ []))) ≡ (
      (contains "urn:mail" (urns_of (grants_for rules ("student" ∷ [])))
        && not (contains "urn:mail" (revoked_urns delta)))
      || contains "urn:mail" (urns_of delta.granted))
transition_applies_example = transition_applies rules ("student" ∷ []) ("alum" ∷ []) 100 "urn:mail"

revoked_exact_example : Within mail_ends (transition rules ("student" ∷ []) [] 100).revoked ↔ (
    (HasGrace "urn:mail" rules.entitlements 30 × (130 ≡ 100 + 30))
    × (contains "urn:mail" (urns_of (grants_for rules ("student" ∷ []))) ≡ true)
    × (contains "urn:mail" (urns_of (grants_for rules [])) ≡ false))
revoked_exact_example = revoked_exact rules ("student" ∷ []) [] 100 mail_ends

revoked_in_a_year_example :
    (is_some (entitlement_of rules.entitlements "urn:mail") ≡ true)
    × (100 ≤ 130)
    × (130 ≤ 100 + max_grace_days)
revoked_in_a_year_example =
    revoked_in_a_year (some document) rules loaded ("student" ∷ []) [] 100 mail_ends mail_revoked
