-- ===== src/Authz/Engine.antt =====
-- campusid/authz/engine.py: the request, the rules and the combining algorithm. A `time` of day
-- is its number of microseconds since midnight. The log call of `_decided` is left out.
use Prim.Native.String.{◌++◌ as text_append}
use Prim.Native.Char.{code}
use campus_id.Shared.{
  ℕ, String, Bool, true, false, not, ◌&&◌, ◌||◌, Option, none, some, List, [], ◌∷◌, map, ltb, leb,
  eqb, ◌==◌, if◌then◌else◌, filter, find?, contains, intersects, is_empty, starts_with,
}

abbrev pub aal1 : String
aal1 = "urn:campusid:aal1"

abbrev pub aal2 : String
aal2 = "urn:campusid:aal2"

abbrev pub default_rule : String
default_rule = "default-deny"

-- `ASSURANCE_ORDER.get(level, 0)`
unfoldable pub assurance_order : String → ℕ
assurance_order level = if level == aal1 then 1 else if level == aal2 then 2 else 0

pub data Effect : Type 0 where
  permit deny challenge : Effect

pub record Subject : Type 0 where
  pub entitlements : List String
  pub affiliations : List String
  pub roles : List String
  pub assurance : String
  pub person_uuid : Option String

pub record Resource : Type 0 where
  pub id : String
  pub classification : String
  pub requires_aal2 : Bool

pub record Environment : Type 0 where
  pub network : String
  pub moment : Option ℕ

pub record Request : Type 0 where
  pub subject : Subject
  pub resource : Resource
  pub action : String
  pub environment : Environment

pub record Decision : Type 0 where
  pub effect : Effect
  pub rule_id : String
  pub reason : String
  pub required_assurance : Option String

-- `Decision.allowed`
unfoldable pub allowed : Decision → Bool
allowed d = elim d.effect [ permit ↦ true | _ ↦ false ]

pub record Rule : Type 0 where
  pub id : String
  pub effect : Effect
  pub description : String
  pub entitlements : List String
  pub affiliations : List String
  pub roles : List String
  pub actions : List String
  pub resources : List String
  pub resource_prefix : String
  pub classifications : List String
  pub networks : List String
  pub between : Option (ℕ × ℕ)
  pub assurance : String

-- `_within`
unfoldable pub within : Option ℕ → ℕ × ℕ → Bool
within none window = false
within (some moment) (start, end) =
    if leb start end then leb start moment && leb moment end else leb start moment || leb moment end

-- `self.between and not _within(at, self.between)`
outside : Option ℕ → Option (ℕ × ℕ) → Bool
unfolding within
outside moment none = false
outside moment (some window) = not (within moment window)

unfoldable pub matches : Rule → Request → Bool
unfolding outside
matches rule request =
    if not (is_empty rule.entitlements)
      && not (intersects rule.entitlements request.subject.entitlements)
    then false
    else if not (is_empty rule.affiliations)
        && not (intersects rule.affiliations request.subject.affiliations)
    then false
    else if not (is_empty rule.roles) && not (intersects rule.roles request.subject.roles)
    then false
    else if not (is_empty rule.actions) && not (contains request.action rule.actions)
    then false
    else if not (is_empty rule.resources) && not (contains request.resource.id rule.resources)
    then false
    else if not (rule.resource_prefix == "")
        && not (starts_with request.resource.id rule.resource_prefix)
    then false
    else if not (is_empty rule.classifications)
        && not (contains request.resource.classification rule.classifications)
    then false
    else if not (is_empty rule.networks) && not (contains request.environment.network rule.networks)
    then false
    else not (outside request.environment.moment rule.between)

-- `_stronger`
unfoldable pub stronger : String → String → String
stronger left right = if leb (assurance_order right) (assurance_order left) then left else right

-- `Rule.required_assurance`
unfoldable pub required_assurance : Rule → Resource → String
unfolding stronger
required_assurance rule resource =
    if resource.requires_aal2 then stronger rule.assurance aal2 else rule.assurance

-- `_falls_short`
unfoldable pub falls_short : String → String → Bool
falls_short held demanded =
    if demanded == "" then false else ltb (assurance_order held) (assurance_order demanded)

abbrev pub is_deny : Effect → Bool
is_deny deny = true
is_deny _ = false

abbrev pub is_permit : Effect → Bool
is_permit permit = true
is_permit _ = false

abbrev or_else : String → String → String
or_else description default = if description == "" then default else description

-- The second loop of `decide`, at the first matched rule that permits, and the default below it.
unfoldable pub grant : Request → Option Rule → Decision
unfolding required_assurance falls_short
grant request none = record {
  effect = deny;
  rule_id = default_rule;
  reason = "no rule permitted this request";
  required_assurance = none;
}
grant request (some rule) =
    let demanded = required_assurance rule request.resource in
    if falls_short request.subject.assurance demanded
    then record {
      effect = challenge;
      rule_id = rule.id;
      reason =
          text_append demanded (text_append " required, session is " request.subject.assurance);
      required_assurance = some demanded;
    }
    else record {
      effect = permit;
      rule_id = rule.id;
      reason = or_else rule.description "permitted";
      required_assurance = none;
    }

-- The first loop, at the first matched rule that denies.
unfoldable pub combine : Request → Option Rule → Option Rule → Decision
unfolding grant
combine request none permitting = grant request permitting
combine request (some rule) permitting = record {
  effect = deny;
  rule_id = rule.id;
  reason = or_else rule.description "denied by policy";
  required_assurance = none;
}

abbrev pub denying : Rule → Bool
denying rule = is_deny rule.effect

abbrev pub permitting : Rule → Bool
permitting rule = is_permit rule.effect

-- `PolicySet.decide`, over the rules that the set holds.
unfoldable pub decide : List Rule → Request → Decision
unfolding combine
decide rules request =
    let matched = filter (λ rule. matches rule request) rules in
    combine request (find? denying matched) (find? permitting matched)

-- `value.split("@", 1)[0]`
unfoldable pub before_at : String → String
before_at String.[] = ""
before_at (String.◌∷◌ c rest) =
    let prefix = before_at rest in if eqb (code c) b'@' then "" else String.◌∷◌ c prefix

-- `attributes.get(name, [])` of a dictionary in the form of an association list.
unfoldable pub values_of : String → List (String × List String) → List String
values_of name [] = []
values_of name ((k, vs) ∷ rest) = if k == name then vs else values_of name rest

unfoldable pub subject_from : List (String × List String) → String → Subject
unfolding before_at values_of
subject_from attributes assurance = record {
  entitlements = values_of "urn:oid:1.3.6.1.4.1.5923.1.1.1.7" attributes;
  affiliations = map before_at (values_of "urn:oid:1.3.6.1.4.1.5923.1.1.1.9" attributes);
  roles = [];
  assurance = assurance;
  person_uuid = none;
}
