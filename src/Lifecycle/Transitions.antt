-- ===== src/Lifecycle/Transitions.antt =====
-- What the rules justify, and what a transition changes, in campusid/lifecycle/rules.py.
use campus_id.Shared.{
  ℕ, ◌+◌, String, ◌≡◌, refl, sym, ap, ◌∙◌, ◌↔◌, inl, inr, Bool, true, false, not, ◌&&◌, ◌||◌, List,
  [], ◌∷◌, map, ◌==◌, ==_iff, arith, Bool-cases, contains, filter, sorted_set, Within, here, there,
  Within-map, Within-of_map,
}
use campus_id.Shared.Members.{
  contains-sorted_set, contains-filter, contains-Within, Within-contains, Within-append_left,
  Within-append_right, Within-of_append,
}
use campus_id.Lifecycle.Revoking.{HasGrace, revocation_iff}
use campus_id.Lifecycle.Rules.{
  Rule, Grant, Revocation, Delta, LifecycleRules, grants_by, grants_over, shared_affiliations,
  grants_of, grants_for, urns_of, revocation, transition,
}

-- A grant that a rule justifies for one of the affiliations.
pub record Justified (rules : List Rule) (affiliations : List String) (grant : Grant) : Type 0 where
  pub rule : Rule
  pub stands : Within rule rules
  pub named : grant.rule_id ≡ rule.id
  pub asks : contains grant.affiliation rule.affiliations ≡ true
  pub has : contains grant.affiliation affiliations ≡ true
  pub gives : Within grant.urn rule.grants

module _ (rule : Rule) where
  Within-grants_over :
      {affiliation urn : String} {affiliations : List String}
      → Within affiliation affiliations
      → Within urn rule.grants
      → Within
          (record { urn = urn; rule_id = rule.id; affiliation = affiliation })
          (grants_over rule affiliations)
  Within-grants_over (here {xs}) w = Within-append_left (grants_over rule xs) (Within-map _ w)
  Within-grants_over (there {x = a} v) w =
      Within-append_right (grants_by rule a) (Within-grants_over v w)

  grants_over-Within :
      {grant : Grant} (affiliations : List String)
      → Within grant (grants_over rule affiliations)
      → (grant.rule_id ≡ rule.id)
        × Within grant.affiliation affiliations
        × Within grant.urn rule.grants
  grants_over-Within [] w = elim w [ ]
  grants_over-Within {grant} (a ∷ affiliations) w = elim (Within-of_append (grants_by rule a) w) [
    | inl v ↦ let (urn, u, e) = Within-of_map _ rule.grants v in rw e (refl, here, u)
    | inr v ↦ let (named, u, given) = grants_over-Within affiliations v in (named, there u, given)
  ]

  shared_iff :
      (affiliation : String) (affiliations : List String)
      → contains affiliation (shared_affiliations rule affiliations)
        ≡ (contains affiliation affiliations && contains affiliation rule.affiliations)
  shared_iff a affiliations =
      contains-sorted_set a (filter (λ x. contains x affiliations) rule.affiliations)
      ∙ contains-filter (λ x. contains x affiliations) a rule.affiliations

Within-grants_of :
    {rules : List Rule} {affiliations : List String} {grant : Grant}
    → Justified rules affiliations grant
    → Within grant (grants_of rules affiliations)
Within-grants_of {rules} {affiliations} {grant} j = go j.stands
  where
    go : {rs : List Rule} → Within j.rule rs → Within grant (grants_of rs affiliations)
    go (here {xs}) = Within-append_left (grants_of xs affiliations) (
        rw j.named (
          Within-grants_over j.rule
            (contains-Within
              (shared_iff j.rule grant.affiliation affiliations ∙ rw (j.has, j.asks)))
            j.gives))
    go (there {x = r} w) =
        Within-append_right (grants_over r (shared_affiliations r affiliations)) (go w)

grants_of-Within :
    (rules : List Rule) (affiliations : List String) (grant : Grant)
    → Within grant (grants_of rules affiliations)
    → Justified rules affiliations grant
grants_of-Within [] affiliations grant w = elim w [ ]
grants_of-Within (r ∷ rules) affiliations grant w =
    elim (Within-of_append (grants_over r (shared_affiliations r affiliations)) w) [
      | inl v ↦
          let (named, u, given) = grants_over-Within r (shared_affiliations r affiliations) v in
          let both : (contains grant.affiliation affiliations
                && contains grant.affiliation r.affiliations)
              ≡ true =
            sym (shared_iff r grant.affiliation affiliations) ∙ Within-contains u in
          record {
            rule = r;
            stands = here;
            named = named;
            asks = ground (arith, both);
            has = ground (arith, both);
            gives = given;
          }
      | inr v ↦
          let j = grants_of-Within rules affiliations grant v in
          record {
            rule = j.rule;
            stands = there j.stands;
            named = j.named;
            asks = j.asks;
            has = j.has;
            gives = j.gives;
          }
    ]

-- `grants_for` gives exactly the justified grants: of a rule that names one of the affiliations, for
-- that affiliation, and of a URN that the rule grants.
pub grants_for_exact :
    (rules : LifecycleRules) (affiliations : List String) (grant : Grant)
    → Within grant (grants_for rules affiliations) ↔ Justified rules.rules affiliations grant
unfolding grants_for
grants_for_exact rules affiliations grant =
    (grants_of-Within rules.rules affiliations grant, λ j. Within-grants_of j)

-- The URNs of the grants that a test on the URN keeps.
urns_of-filter :
    (q : String → Bool) (urn : String) (grants : List Grant)
    → contains urn (urns_of (filter (λ (g : Grant). q g.urn) grants))
      ≡ (q urn && contains urn (urns_of grants))
urns_of-filter q urn [] = ground arith
urns_of-filter q urn (g ∷ grants) = elim (Bool-cases (g.urn == urn)) [
  | inl e ↦
      let d = (==_iff g.urn urn).0 e in
      elim (Bool-cases (q g.urn)) [
        | inl f ↦ rw (f, e, sym (ap q d) ∙ f) refl
        | inr f ↦ rw (f, urns_of-filter q urn grants, sym (ap q d) ∙ f) refl
      ]
  | inr e ↦ elim (Bool-cases (q g.urn)) [
    | inl f ↦ rw (f, e) (urns_of-filter q urn grants)
    | inr f ↦ rw (f, e) (urns_of-filter q urn grants)
  ]
]

abbrev pub revoked_urns : Delta → List String
revoked_urns delta = map (λ (r : Revocation). r.urn) delta.revoked

revoked_urns-map :
    (rules : LifecycleRules) (today : ℕ) (urns : List String)
    → map (λ (r : Revocation). r.urn) (map (revocation rules today) urns) ≡ urns
unfolding revocation
revoked_urns-map rules today [] = refl
revoked_urns-map rules today (u ∷ urns) = ap (λ us. u ∷ us) (revoked_urns-map rules today urns)

-- Applying a transition's delta to the entitlements held before gives the entitlements held after:
-- a URN is justified afterwards exactly if it was held and is not revoked, or it is granted.
pub transition_applies :
    (rules : LifecycleRules) (before after : List String) (today : ℕ) (urn : String)
    → let delta = transition rules before after today in
      contains urn (urns_of (grants_for rules after)) ≡ (
        (contains urn (urns_of (grants_for rules before))
          && not (contains urn (revoked_urns delta)))
        || contains urn (urns_of delta.granted))
unfolding transition
transition_applies rules before after today urn =
    let held = urns_of (grants_for rules before) in
    let now = urns_of (grants_for rules after) in
    let gone = filter (λ u. not (contains u now)) held in
    rw
      (
        revoked_urns-map rules today (sorted_set gone),
        contains-sorted_set urn gone,
        contains-filter (λ u. not (contains u now)) urn held,
        urns_of-filter (λ u. not (contains u held)) urn (grants_for rules after),
      )
      (ground arith)

-- A transition revokes a URN exactly if it was held before and is not justified afterwards. The
-- revocation has the grace period of the first entitlement with that URN, or no day where the
-- catalogue has none, and its date is as many days after the day of the transition.
pub revoked_exact :
    (rules : LifecycleRules) (before after : List String) (today : ℕ) (r : Revocation)
    → Within r (transition rules before after today).revoked ↔ (
        (HasGrace r.urn rules.entitlements r.grace_days × (r.effective ≡ today + r.grace_days))
        × (contains r.urn (urns_of (grants_for rules before)) ≡ true)
        × (contains r.urn (urns_of (grants_for rules after)) ≡ false))
unfolding transition revocation
revoked_exact rules before after today r =
    let held = urns_of (grants_for rules before) in
    let now = urns_of (grants_for rules after) in
    let gone = filter (λ u. not (contains u now)) held in
    let both =
      contains-sorted_set r.urn gone ∙ contains-filter (λ u. not (contains u now)) r.urn held in
    (
      (λ w.
          let (urn, u, e) = Within-of_map (revocation rules today) (sorted_set gone) w in
          let d : r.urn ≡ urn = ap (λ (x : Revocation). x.urn) e in
          let h : contains r.urn (sorted_set gone) ≡ true = rw d (Within-contains u) in
          let k = sym both ∙ h in
          let f = (revocation_iff rules today r).0 (e ∙ ap (revocation rules today) (sym d)) in
          (f, ground (arith, k), ground (arith, k))),
      (λ (f, was, lost).
          rw ((revocation_iff rules today r).1 f)
            (Within-map (revocation rules today) (contains-Within (both ∙ rw (was, lost) refl)))),
    )
