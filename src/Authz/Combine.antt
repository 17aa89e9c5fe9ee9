-- ===== src/Authz/Combine.antt =====
-- What `decide` of campusid/authz/engine.py promises: deny overrides, default deny, and assurance
-- as an obligation.
use campus_id.Shared.{
  ◌≤◌, String, ◌≡◌, refl, ap, ◌⊎◌, inl, inr, Bool, true, false, none, some, List, [], ◌∷◌, arith,
  filter, find?, Within, Option-cases, Bool-cases, find?-filter_sound, find?-filter-none, ◌==◌,
  ==_iff, leb, ltb,
}
use campus_id.Authz.Engine.{
  Effect, permit, deny, challenge, Request, Resource, Decision, Rule, matches, decide, falls_short,
  required_assurance, assurance_order, denying, permitting, default_rule, grant, aal2, stronger,
  is_deny, is_permit,
}

-- A rule of the set that matches and denies.
pub record Denial (rules : List Rule) (request : Request) : Type 0 where
  pub rule : Rule
  pub listed : Within rule rules
  pub applies : matches rule request ≡ true
  pub denies : rule.effect ≡ deny

-- A rule of the set that matches and permits.
pub record Permission (rules : List Rule) (request : Request) : Type 0 where
  pub rule : Rule
  pub listed : Within rule rules
  pub applies : matches rule request ≡ true
  pub permits : rule.effect ≡ permit

is_deny-eq : (e : Effect) → is_deny e ≡ true → e ≡ deny
is_deny-eq e h = ground arith

is_permit-eq : (e : Effect) → is_permit e ≡ true → e ≡ permit
is_permit-eq e h = ground arith

module _ (rules : List Rule) (request : Request) where
  abbrev matched : List Rule
  matched = filter (λ rule. matches rule request) rules

  denial_of : (rule : Rule) → find? denying matched ≡ some rule → Denial rules request
  denial_of rule h =
      let (w, a, d) = find?-filter_sound denying (λ r. matches r request) rules rule h in
      record { rule = rule; listed = w; applies = a; denies = is_deny-eq rule.effect d }

  permission_of : (rule : Rule) → find? permitting matched ≡ some rule → Permission rules request
  permission_of rule h =
      let (w, a, d) = find?-filter_sound permitting (λ r. matches r request) rules rule h in
      record { rule = rule; listed = w; applies = a; permits = is_permit-eq rule.effect d }

  no_denial : find? denying matched ≡ none → ¬ Denial rules request
  no_denial h d = cc (
    find?-filter-none denying (λ r. matches r request) d.listed h d.applies,
    ap_deny d.rule d.denies,
  )
    where
      ap_deny : (r : Rule) → r.effect ≡ deny → denying r ≡ true
      ap_deny r e = rw e

  no_permission : find? permitting matched ≡ none → ¬ Permission rules request
  no_permission h d = cc (
    find?-filter-none permitting (λ r. matches r request) d.listed h d.applies,
    ap_permit d.rule d.permits,
  )
    where
      ap_permit : (r : Rule) → r.effect ≡ permit → permitting r ≡ true
      ap_permit r e = rw e

  -- What the decision is read off: the first denial, or else the first permission.
  pub data Verdict : Decision → Type 0 where
    denied :
        (d : Denial rules request) {out : Decision}
        → out.effect ≡ deny
        → out.rule_id ≡ d.rule.id
        → Verdict out
    challenged :
        (p : Permission rules request) {out : Decision}
        → ¬ Denial rules request
        → out.effect ≡ challenge
        → out.rule_id ≡ p.rule.id
        → out.required_assurance ≡ some (required_assurance p.rule request.resource)
        → falls_short request.subject.assurance (required_assurance p.rule request.resource) ≡ true
        → Verdict out
    permitted :
        (p : Permission rules request) {out : Decision}
        → ¬ Denial rules request
        → out.effect ≡ permit
        → out.rule_id ≡ p.rule.id
        → falls_short request.subject.assurance (required_assurance p.rule request.resource) ≡ false
        → Verdict out
    defaulted :
        {out : Decision}
        → ¬ Denial rules request
        → ¬ Permission rules request
        → out.effect ≡ deny
        → out.rule_id ≡ default_rule
        → Verdict out

  grant-Verdict : ¬ Denial rules request → Verdict (grant request (find? permitting matched))
  unfolding grant permission_of
  grant-Verdict free = elim (Option-cases (find? permitting matched)) [
    | inl gone ↦ rw gone (defaulted free (no_permission gone) refl refl)
    | inr (rule, found) ↦
        let p = permission_of rule found in
        rw found
          (elim (Bool-cases
            (falls_short request.subject.assurance (required_assurance rule request.resource))) [
              | inl short ↦ rw short (challenged p free refl refl refl short)
              | inr enough ↦ rw enough (permitted p free refl refl enough)
            ])
  ]

  -- Every decision is one of four: a deny that names a matching deny rule of the set; with no
  -- matching deny rule, a challenge that names a matching permit rule and asks for exactly the
  -- assurance that the rule and the resource demand and the session lacks; a permit that names a
  -- matching permit rule whose demand the session meets; or, with no matching deny rule and no
  -- matching permit rule, a deny that names the default rule.
  pub decide-Verdict : Verdict (decide rules request)
  unfolding decide denial_of
  decide-Verdict = elim (Option-cases (find? denying matched)) [
    | inl gone ↦ rw gone (grant-Verdict (no_denial gone))
    | inr (rule, found) ↦ rw found (denied (denial_of rule found) refl refl)
  ]

module _ {rules : List Rule} {request : Request} where
  Verdict-deny :
      {out : Decision} → Verdict rules request out → Denial rules request → out.effect ≡ deny
  Verdict-deny (denied d e i) h = e
  Verdict-deny (challenged p free e i a s) h = absurd (free h)
  Verdict-deny (permitted p free e i s) h = absurd (free h)
  Verdict-deny (defaulted free none_fit e i) h = e

  -- The ways to be denied: by a rule, or because nothing permits.
  Verdict-denied_why :
      {out : Decision}
      → Verdict rules request out
      → out.effect ≡ deny
      → Denial rules request ⊎ ¬ Permission rules request
  Verdict-denied_why (denied d e i) h = inl d
  Verdict-denied_why (challenged p free e i a s) h = cc
  Verdict-denied_why (permitted p free e i s) h = cc
  Verdict-denied_why (defaulted free none_fit e i) h = inr none_fit

  Verdict-not_permitted :
      {out : Decision} → Verdict rules request out → ¬ Permission rules request → out.effect ≡ deny
  Verdict-not_permitted (denied d e i) h = e
  Verdict-not_permitted (challenged p free e i a s) h = absurd (h p)
  Verdict-not_permitted (permitted p free e i s) h = absurd (h p)
  Verdict-not_permitted (defaulted free none_fit e i) h = e

  Verdict-permit_strong :
      {out : Decision}
      → Verdict rules request out
      → out.effect ≡ permit
      → (rule : Rule) × (falls_short request.subject.assurance
            (required_assurance rule request.resource)
          ≡ false)
  Verdict-permit_strong (denied d e i) h = cc
  Verdict-permit_strong (challenged p free e i a s) h = cc
  Verdict-permit_strong (permitted p free e i s) h = (p.rule, s)
  Verdict-permit_strong (defaulted free none_fit e i) h = cc

-- Wherever it stands in the set, a rule that matches and denies makes the decision a denial,
-- whatever the other rules permit.
pub deny_overrides :
    (rules : List Rule) (request : Request)
    → Denial rules request
    → (decide rules request).effect ≡ deny
deny_overrides rules request d = Verdict-deny (decide-Verdict rules request) d

Denial-map :
    {xs ys : List Rule} {request : Request}
    → ((r : Rule) → Within r xs → Within r ys)
    → Denial xs request
    → Denial ys request
Denial-map f d = record {
  rule = d.rule;
  listed = f d.rule d.listed;
  applies = d.applies;
  denies = d.denies;
}

Permission-map :
    {xs ys : List Rule} {request : Request}
    → ((r : Rule) → Within r xs → Within r ys)
    → Permission xs request
    → Permission ys request
Permission-map f p = record {
  rule = p.rule;
  listed = f p.rule p.listed;
  applies = p.applies;
  permits = p.permits;
}

-- Whether a request is denied does not depend on the order in which the rules are written: two
-- lists that hold the same rules deny the same requests.
pub deny_order_free :
    (xs ys : List Rule) (request : Request)
    → ((r : Rule) → Within r xs → Within r ys)
    → ((r : Rule) → Within r ys → Within r xs)
    → (decide xs request).effect ≡ deny
    → (decide ys request).effect ≡ deny
deny_order_free xs ys request f g h = elim (Verdict-denied_why (decide-Verdict xs request) h) [
  | inl d ↦ Verdict-deny (decide-Verdict ys request) (Denial-map f d)
  | inr unfit ↦ Verdict-not_permitted (decide-Verdict ys request) (λ p. unfit (Permission-map g p))
]

assurance_order-aal2 : assurance_order aal2 ≡ 2
unfolding assurance_order
assurance_order-aal2 = refl

assurance_order-empty : assurance_order "" ≡ 0
unfolding assurance_order
assurance_order-empty = refl

stronger-right :
    (left right : String) → assurance_order right ≤ assurance_order (stronger left right)
unfolding stronger
stronger-right left right = elim (Bool-cases (leb (assurance_order right) (assurance_order left))) [
  | inl above ↦ rw above (ground arith)
  | inr below ↦ rw below (omega arith)
]

-- What a resource that requires AAL2 asks for ranks at least as AAL2, whatever the rule says.
required_assurance-aal2 :
    (rule : Rule) (resource : Resource)
    → resource.requires_aal2 ≡ true
    → 2 ≤ assurance_order (required_assurance rule resource)
required_assurance-aal2 rule resource h =
    unfold required_assurance in
    rw h (omega (arith, assurance_order-aal2, stronger-right rule.assurance aal2))

falls_short-rank :
    (held demanded : String)
    → 2 ≤ assurance_order demanded
    → falls_short held demanded ≡ false
    → 2 ≤ assurance_order held
unfolding falls_short
falls_short-rank held demanded h e = elim (Bool-cases (demanded == "")) [
  | inl empty ↦ absurd (empty_rank ((==_iff demanded "").0 empty))
  | inr other ↦ omega (arith, ltb_false (rw other at e))
]
  where
    empty_rank : demanded ≡ "" → ⊥
    empty_rank p = omega (arith, assurance_order-empty, ap assurance_order p)

    ltb_false :
        ltb (assurance_order held) (assurance_order demanded) ≡ false
        → assurance_order demanded ≤ assurance_order held
    ltb_false q = ground arith

-- A resource that requires AAL2 is never permitted to a session of a lesser rank, whatever the
-- rules ask for.
pub permit_needs_aal2 :
    (rules : List Rule) (request : Request)
    → request.resource.requires_aal2 ≡ true
    → (decide rules request).effect ≡ permit
    → 2 ≤ assurance_order request.subject.assurance
permit_needs_aal2 rules request strict h =
    let (rule, enough) = Verdict-permit_strong (decide-Verdict rules request) h in
    falls_short-rank request.subject.assurance (required_assurance rule request.resource)
      (required_assurance-aal2 rule request.resource strict) enough

permitting-true : (r : Rule) → r.effect ≡ permit → (permitting r ≡ true) × (denying r ≡ false)
permitting-true r e = (rw e, rw e)

decide-first_permit :
    (r : Rule) (rest : List Rule) (request : Request)
    → matches r request ≡ true
    → r.effect ≡ permit
    → find? denying (filter (λ rule. matches rule request) rest) ≡ none
    → decide (r ∷ rest) request ≡ grant request (some r)
decide-first_permit r rest request m e free =
    let (p, d) = permitting-true r e in unfold decide in rw (m, p, d, free)

grant-effect :
    (request : Request) (r : Rule) (b : Bool)
    → falls_short request.subject.assurance (required_assurance r request.resource) ≡ b
    → (grant request (some r)).effect ≡ elim b [ true ↦ challenge | false ↦ permit ]
grant-effect request r true h = unfold grant in rw h
grant-effect request r false h = unfold grant in rw h

no_denying :
    (r : Rule) (request : Request)
    → matches r request ≡ true
    → r.effect ≡ permit
    → find? denying (filter (λ rule. matches rule request) (r ∷ [])) ≡ none
no_denying r request m e = let (p, d) = permitting-true r e in rw (m, d)

-- Among permitting rules the order is part of the meaning: of two matching permit rules, one whose
-- demand the session does not meet and one whose demand it meets, the first of the list decides,
-- so one order challenges the session that the other order permits.
pub permit_order_matters :
    (r s : Rule) (request : Request)
    → matches r request ≡ true
    → matches s request ≡ true
    → r.effect ≡ permit
    → s.effect ≡ permit
    → falls_short request.subject.assurance (required_assurance r request.resource) ≡ true
    → falls_short request.subject.assurance (required_assurance s request.resource) ≡ false
    → ((decide (r ∷ s ∷ []) request).effect ≡ challenge)
      × ((decide (s ∷ r ∷ []) request).effect ≡ permit)
permit_order_matters r s request mr ms er es short enough = (
  rw (decide-first_permit r (s ∷ []) request mr er (no_denying s request ms es))
      (grant-effect request r true short),
  rw (decide-first_permit s (r ∷ []) request ms es (no_denying r request mr er))
      (grant-effect request s false enough),
)
