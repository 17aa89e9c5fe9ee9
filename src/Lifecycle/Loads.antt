-- ===== src/Lifecycle/Loads.antt =====
-- Every rules file that campusid/lifecycle/rules.py accepts, and its transitions.
use campus_id.Shared.{
  ℕ, ◌+◌, ◌≤◌, String, ◌≡◌, ◌∙◌, ap, true, Option, none, some, List, [], arith, contains, is_some,
  Within, Within-of_map,
}
use campus_id.Shared.Members.{contains-Within}
use campus_id.Lifecycle.Document.{
  Doc, null, negative, real, boolean, whole, text, sequence, mapping, nil, cons, Fields, Loaded, ok,
  rules_error, type_error, field_or,
}
use campus_id.Lifecycle.Rules.{
  Entitlement, Rule, Revocation, LifecycleRules, entitlement_of, grace_of, grants_for, revocation,
  transition,
}
use campus_id.Lifecycle.Revoking.{HasGrace-grace_of}
use campus_id.Lifecycle.Transitions.{grants_for_exact, revoked_exact}
use campus_id.Lifecycle.Declared.{Holds, Bounded}
use campus_id.Lifecycle.Accepted.{AllSound, rule_loop-AllSound}
use campus_id.Lifecycle.Grace.{entitlements-Bounded, grace_of-Bounded}
use campus_id.Lifecycle.Loader.{
  max_grace_days, affiliation_vocabulary, entitlements, rules_of, load_rest, load_catalogue,
  load_rules,
}

rules_of-AllSound :
    (doc : Doc) (catalogue : List Entitlement) → Holds (AllSound catalogue) (rules_of doc catalogue)
unfolding rules_of
rules_of-AllSound (sequence (cons entry rest)) catalogue =
    rule_loop-AllSound catalogue (cons entry rest) []
rules_of-AllSound (sequence nil) catalogue = tt
rules_of-AllSound null catalogue = tt
rules_of-AllSound negative catalogue = tt
rules_of-AllSound (real b) catalogue = tt
rules_of-AllSound (boolean b) catalogue = tt
rules_of-AllSound (whole n) catalogue = tt
rules_of-AllSound (text s) catalogue = tt
rules_of-AllSound (mapping fs) catalogue = tt

abbrev Trusted : LifecycleRules → Type 0
Trusted rules = Bounded rules.entitlements × AllSound rules.entitlements rules.rules

load_rest-Trusted :
    (catalogue : List Entitlement) (rules : Loaded (List Rule))
    → Bounded catalogue
    → Holds (AllSound catalogue) rules
    → Holds Trusted (load_rest catalogue rules)
load_rest-Trusted catalogue (ok rules) b h = (b, h)
load_rest-Trusted catalogue rules_error b h = tt
load_rest-Trusted catalogue type_error b h = tt

load_catalogue-Trusted :
    (document : Fields) (catalogue : Loaded (List Entitlement))
    → Holds Bounded catalogue
    → Holds Trusted (load_catalogue document catalogue)
unfolding load_catalogue
load_catalogue-Trusted document (ok catalogue) b =
    load_rest-Trusted catalogue (rules_of (field_or document "rules" null) catalogue) b
      (rules_of-AllSound (field_or document "rules" null) catalogue)
load_catalogue-Trusted document rules_error b = tt
load_catalogue-Trusted document type_error b = tt

load_rules-Trusted : (file : Option Doc) → Holds Trusted (load_rules file)
unfolding load_rules
load_rules-Trusted (some (mapping document)) =
    load_catalogue-Trusted document (entitlements (field_or document "entitlements" null))
      (entitlements-Bounded (field_or document "entitlements" null))
load_rules-Trusted none = tt
load_rules-Trusted (some null) = tt
load_rules-Trusted (some negative) = tt
load_rules-Trusted (some (real b)) = tt
load_rules-Trusted (some (boolean b)) = tt
load_rules-Trusted (some (whole n)) = tt
load_rules-Trusted (some (text s)) = tt
load_rules-Trusted (some (sequence ds)) = tt

trusted : (file : Option Doc) (rules : LifecycleRules) → load_rules file ≡ ok rules → Trusted rules
trusted file rules won = rw won at (load_rules-Trusted file)

-- In rules that were loaded, every grant of a rule names a declared entitlement, and every
-- affiliation of a rule is in the eduPerson vocabulary.
pub load_rules_declared :
    (file : Option Doc) (rules : LifecycleRules)
    → load_rules file ≡ ok rules
    → (rule : Rule) → Within rule rules.rules
    → ((urn : String)
        → Within urn rule.grants
        → is_some (entitlement_of rules.entitlements urn) ≡ true)
      × ((a : String) → Within a rule.affiliations → contains a affiliation_vocabulary ≡ true)
load_rules_declared file rules won rule w = (trusted file rules won).1 rule w

-- With rules that were loaded, whatever a transition revokes is a declared entitlement, and it ends
-- within 365 days of the transition.
pub revoked_in_a_year :
    (file : Option Doc) (rules : LifecycleRules)
    → load_rules file ≡ ok rules
    → (before after : List String) (today : ℕ) (r : Revocation)
    → Within r (transition rules before after today).revoked
    → (is_some (entitlement_of rules.entitlements r.urn) ≡ true)
      × (today ≤ r.effective)
      × (r.effective ≤ today + max_grace_days)
unfolding revocation
revoked_in_a_year file rules won before after today r w =
    let ((grace, e), was, lost) = (revoked_exact rules before after today r).0 w in
    let (grant, held, same) = Within-of_map _ (grants_for rules before) (contains-Within was) in
    let j = (grants_for_exact rules before grant).0 held in
    let declared = (load_rules_declared file rules won j.rule j.stands).0 grant.urn j.gives in
    let day : r.effective ≡ today + grace_of (entitlement_of rules.entitlements r.urn) =
      e ∙ ap (λ n. today + n) (HasGrace-grace_of grace) in
    let bound = grace_of-Bounded rules.entitlements r.urn (trusted file rules won).0 in
    (rw same declared, omega (arith, day), omega (arith, day, bound))
