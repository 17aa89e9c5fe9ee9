-- ===== src/Lifecycle/Rules.antt =====
-- The rules and the transition of campusid/lifecycle/rules.py. A day is its number. A set of texts is
-- a list read through `contains`; the catalogue is the list of its entitlements.
use campus_id.Shared.{
  ℕ, ◌+◌, String, Bool, not, ◌&&◌, Option, none, some, List, [], ◌∷◌, ◌++◌, map, ◌==◌, ltb, eqb,
  contains, filter, find?, sorted_set, is_empty,
}

pub record Entitlement : Type 0 where
  pub urn : String
  pub display_name : String
  pub classification : String
  pub grace_days : ℕ
  pub requires_aal2 : Bool

pub record Rule : Type 0 where
  pub id : String
  pub affiliations : List String
  pub grants : List String

pub record Grant : Type 0 where
  pub urn : String
  pub rule_id : String
  pub affiliation : String

pub record Revocation : Type 0 where
  pub urn : String
  pub effective : ℕ
  pub grace_days : ℕ

pub record Delta : Type 0 where
  pub granted : List Grant
  pub retained : List Grant
  pub revoked : List Revocation

-- `Delta.is_empty`
abbrev pub is_no_change : Delta → Bool
is_no_change delta = is_empty delta.granted && is_empty delta.revoked

abbrev pub immediate : Delta → List Revocation
immediate delta = filter (λ revocation. eqb revocation.grace_days 0) delta.revoked

abbrev pub deferred : Delta → List Revocation
deferred delta = filter (λ revocation. ltb 0 revocation.grace_days) delta.revoked

pub record LifecycleRules : Type 0 where
  pub entitlements : List Entitlement
  pub rules : List Rule

-- `self.entitlements.get(urn)`
abbrev pub entitlement_of : List Entitlement → String → Option Entitlement
entitlement_of catalogue urn = find? (λ (e : Entitlement). e.urn == urn) catalogue

-- The innermost loop of `grants_for`.
abbrev pub grants_by : Rule → String → List Grant
grants_by rule affiliation =
    map (λ urn. record { urn = urn; rule_id = rule.id; affiliation = affiliation }) rule.grants

abbrev pub grants_over : Rule → List String → List Grant
grants_over rule [] = []
grants_over rule (affiliation ∷ rest) = grants_by rule affiliation ++ grants_over rule rest

-- `sorted(rule.affiliations & affiliations)`
abbrev pub shared_affiliations : Rule → List String → List String
shared_affiliations rule affiliations =
    sorted_set (filter (λ a. contains a affiliations) rule.affiliations)

abbrev pub grants_of : List Rule → List String → List Grant
grants_of [] affiliations = []
grants_of (rule ∷ rules) affiliations =
    grants_over rule (shared_affiliations rule affiliations) ++ grants_of rules affiliations

unfoldable pub grants_for : LifecycleRules → List String → List Grant
grants_for rules affiliations = grants_of rules.rules affiliations

abbrev pub urns_of : List Grant → List String
urns_of grants = map (λ (g : Grant). g.urn) grants

abbrev pub grace_of : Option Entitlement → ℕ
grace_of none = 0
grace_of (some entitlement) = entitlement.grace_days

-- `_revocation`
unfoldable pub revocation : LifecycleRules → ℕ → String → Revocation
revocation rules today urn =
    let grace = grace_of (entitlement_of rules.entitlements urn) in
    record { urn = urn; effective = today + grace; grace_days = grace }

unfoldable pub transition : LifecycleRules → List String → List String → ℕ → Delta
unfolding grants_for revocation
transition rules before after today =
    let held = grants_for rules before in
    let now = grants_for rules after in
    let held_urns = urns_of held in
    let current_urns = urns_of now in
    record {
      granted = filter (λ (g : Grant). not (contains g.urn held_urns)) now;
      retained = filter (λ (g : Grant). contains g.urn held_urns) now;
      revoked =
          map (revocation rules today)
            (sorted_set (filter (λ urn. not (contains urn current_urns)) held_urns));
    }
