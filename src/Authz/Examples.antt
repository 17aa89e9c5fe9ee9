-- ===== src/Authz/Examples.antt =====
-- The theorems of the authorization engine at a payroll resource, and tests of its definitions.
use campus_id.Shared.{◌≡◌, refl, true, false, none, some, List, [], ◌∷◌, Within, here, there}
use campus_id.Authz.Engine.{
  permit, deny, Request, Resource, Rule, decide, within, subject_from, aal1, aal2,
}
use campus_id.Authz.Combine.{Verdict, decide-Verdict}

abbrev payroll : Resource
payroll = record { id = "app:payroll"; classification = "internal"; requires_aal2 = false }

abbrev strict_payroll : Resource
strict_payroll = record payroll { requires_aal2 = true }

abbrev weak_request : Request
weak_request = record {
  subject = record {
    entitlements = [];
    affiliations = "staff" ∷ [];
    roles = [];
    assurance = aal1;
    person_uuid = none;
  };
  resource = payroll;
  action = "read";
  environment = record { network = "campus"; moment = none };
}

abbrev strong_request : Request
strong_request = record weak_request {
  subject = record (weak_request.subject) { assurance = aal2 };
  resource = strict_payroll;
}

abbrev staff_rule : Rule
staff_rule = record {
  id = "staff";
  effect = permit;
  description = "";
  entitlements = [];
  affiliations = "staff" ∷ "faculty" ∷ [];
  roles = [];
  actions = "read" ∷ [];
  resources = [];
  resource_prefix = "app:";
  classifications = [];
  networks = [];
  between = none;
  assurance = "";
}

abbrev careful_rule : Rule
careful_rule = record staff_rule { id = "careful"; assurance = aal2 }

abbrev deny_rule : Rule
deny_rule = record staff_rule { id = "frozen"; effect = deny }

abbrev rules : List Rule
rules = staff_rule ∷ deny_rule ∷ []

abbrev reversed : List Rule
reversed = deny_rule ∷ staff_rule ∷ []

to_reversed : (r : Rule) → Within r rules → Within r reversed
to_reversed r here = there here
to_reversed r (there here) = here
to_reversed r (there (there w)) = elim w [ ]

of_reversed : (r : Rule) → Within r reversed → Within r rules
of_reversed r here = there here
of_reversed r (there here) = here
of_reversed r (there (there w)) = elim w [ ]

decide-Verdict_example : Verdict rules weak_request (decide rules weak_request)
decide-Verdict_example = decide-Verdict rules weak_request

overnight : within (some 100) (2200, 600) ≡ true
unfolding within
overnight = refl

subject_of_released :
    (subject_from
      (("urn:oid:1.3.6.1.4.1.5923.1.1.1.9", "staff@campus.edu" ∷ []) ∷ [])
      aal1).affiliations
    ≡ "staff" ∷ []
unfolding subject_from
subject_of_released = refl
