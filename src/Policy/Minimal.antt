-- ===== src/Policy/Minimal.antt =====
-- Minimal disclosure by campusid/policy/release.py: what is released, and what decides it.
use campus_id.Shared.{
  ℕ, ◌≤◌, ◌<◌, String, ◌≡◌, ◌≢◌, refl, ◌⊎◌, inl, inr, Bool, true, false, not, ◌&&◌, Option, none,
  some, List, [], ◌∷◌, arith, find?, contains, is_empty, Bool-cases, Option-cases, Within, here,
  there, Within-cons, Within-filter, Within-map, Within-of_map, ==_iff,
}
use campus_id.Shared.Sorting.{
  sort_by, by_key, Within-of_sort_by, Within-sort_by, find?-sort_by_least, find?-sound, find?-none,
}
use campus_id.Policy.Attributes.{AttributeDefinition, definition}
use campus_id.Policy.Release.{
  Effect, allow, allow_value, deny, require_consent, ReleaseRule, ReleasePolicy, Subject, Decision,
  Attributes, is_restricted, suppressed, in_entity_category_bundle, is_for, matches, apply_effect,
  apply_rule, decide_by_rules, decide_known, decide, released_of, sorted_entries, evaluate,
}

not-Within-nil : {A : Type 0} {a : A} → Within a [] → ⊥
not-Within-nil w = elim w [ ]

-- Why an attribute of this name and these values may be shown.
pub record Releasable (policy : ReleasePolicy) (subject : Subject) (available : Attributes)
    (entry : String × List String) : Type 0 where
  pub attribute : AttributeDefinition
  pub known : definition entry.0 ≡ some attribute
  pub not_restricted : is_restricted attribute.classification ≡ false
  pub not_suppressed : suppressed policy subject attribute ≡ false
  pub held : List String
  pub available_held : Within (entry.0, held) available
  pub values_held : (v : String) → Within v entry.1 → Within v held
  pub some_value : is_empty entry.1 ≡ false

module _ (fullmatch : String → String → Bool) where
  abbrev precedence_of : ReleaseRule → ℕ
  precedence_of r = r.precedence

  abbrev Within-values : Decision → List String → Type 0
  Within-values d values = (v : String) → Within v d.values → Within v values

  apply_effect-values :
      (e : Effect) (rule : ReleaseRule) (name : String) (values consented : List String)
      → Within-values (apply_effect fullmatch e rule name values consented) values
  unfolding apply_effect
  apply_effect-values allow rule name values consented v w = w
  apply_effect-values allow_value rule name values consented v w =
      (Within-filter (λ value. matches fullmatch rule value) values w).0
  apply_effect-values deny rule name values consented v w = elim w [ ]
  apply_effect-values require_consent rule name values consented v w =
      elim (Bool-cases (contains name consented)) [
        | inl agreed ↦ rw agreed at w
        | inr open_question ↦ absurd (not-Within-nil (rw open_question at w))
      ]

  apply_effect-attribute :
      (e : Effect) (rule : ReleaseRule) (name : String) (values consented : List String)
      → (apply_effect fullmatch e rule name values consented).attribute ≡ name
  unfolding apply_effect
  apply_effect-attribute allow rule name values consented = refl
  apply_effect-attribute require_consent rule name values consented = ground arith
  apply_effect-attribute _ rule name values consented = refl

  decide_by_rules-values :
      (o : Option ReleaseRule) (policy : ReleasePolicy) (name : String)
      (values consented : List String)
      → Within-values (decide_by_rules fullmatch o policy name values consented) values
  unfolding decide_by_rules
  decide_by_rules-values (some rule) policy name values consented v w =
      apply_effect-values rule.effect rule name values consented v w
  decide_by_rules-values none policy name values consented v w =
      elim (Bool-cases (in_entity_category_bundle policy name)) [
        | inl bundled ↦ rw bundled at w
        | inr other ↦ absurd (not-Within-nil (rw other at w))
      ]

  decide_by_rules-attribute :
      (o : Option ReleaseRule) (policy : ReleasePolicy) (name : String)
      (values consented : List String)
      → (decide_by_rules fullmatch o policy name values consented).attribute ≡ name
  unfolding decide_by_rules
  decide_by_rules-attribute (some rule) policy name values consented =
      apply_effect-attribute rule.effect rule name values consented
  decide_by_rules-attribute none policy name values consented =
      elim (Bool-cases (in_entity_category_bundle policy name)) [
        | inl bundled ↦ rw bundled
        | inr other ↦ rw other
      ]

  -- The rule that decides about a name: the first about it in the order of precedence.
  abbrev pub governing : ReleasePolicy → String → Option ReleaseRule
  governing policy name = find? (is_for name) (sort_by (by_key precedence_of) policy.rules)

  abbrev pub by_rules : ReleasePolicy → String → List String → List String → Decision
  by_rules policy name values consented =
      decide_by_rules fullmatch (governing policy name) policy name values consented

  module _ (policy : ReleasePolicy) (subject : Subject) (name : String)
      (values consented : List String) where
    -- What `_decide` answers: a refusal before any rule is read, or what the rules say.
    pub data Outcome (o : Option AttributeDefinition) (d : Decision) : Type 0 where
      refused : d.released ≡ false → d.values ≡ [] → d.attribute ≡ name → Outcome o d
      ruled :
          (a : AttributeDefinition)
          → o ≡ some a
          → is_restricted a.classification ≡ false
          → suppressed policy subject a ≡ false
          → d ≡ by_rules policy name values consented
          → Outcome o d

    decide_known-Outcome :
        (o : Option AttributeDefinition)
        → Outcome o (decide_known fullmatch o policy subject name values consented)
    unfolding decide_known
    decide_known-Outcome none = refused refl refl refl
    decide_known-Outcome (some a) = elim (Bool-cases (is_restricted a.classification)) [
      | inl r ↦ rw r (refused refl refl refl)
      | inr free ↦ elim (Bool-cases (suppressed policy subject a)) [
        | inl s ↦ rw (free, s) (refused refl refl refl)
        | inr open_record ↦ rw (free, open_record) (ruled a refl free open_record refl)
      ]
    ]

    Outcome-attribute :
        {o : Option AttributeDefinition} {d : Decision} → Outcome o d → d.attribute ≡ name
    Outcome-attribute (refused r v a) = a
    Outcome-attribute (ruled a e r s p) =
        rw p (decide_by_rules-attribute (governing policy name) policy name values consented)

    Outcome-values :
        {o : Option AttributeDefinition} {d : Decision} → Outcome o d → Within-values d values
    Outcome-values (refused r v a) x w = absurd (not-Within-nil (rw v at w))
    Outcome-values (ruled a e r s p) x w =
        decide_by_rules-values (governing policy name) policy name values consented x (rw p at w)

    Outcome-released :
        {o : Option AttributeDefinition} {d : Decision}
        → Outcome o d
        → d.released ≡ true
        → (a : AttributeDefinition) × (o ≡ some a)
          × (is_restricted a.classification ≡ false)
          × (suppressed policy subject a ≡ false)
    Outcome-released (refused r v a) h = cc
    Outcome-released (ruled a e r s p) h = (a, e, r, s)

    decide-Outcome :
        Outcome (definition name) (decide fullmatch policy subject name values consented)
    unfolding decide
    decide-Outcome = decide_known-Outcome (definition name)

    -- An attribute that the catalogue knows, that is not restricted and not suppressed, is decided by
    -- the rule of the policy about it that has the least precedence number, if there is one of
    -- strictly least precedence, wherever it stands in the policy.
    pub decide_least_precedence :
        (a : AttributeDefinition) (r : ReleaseRule)
        → definition name ≡ some a
        → is_restricted a.classification ≡ false
        → suppressed policy subject a ≡ false
        → Within r policy.rules
        → r.attribute ≡ name
        → ((s : ReleaseRule)
            → Within s policy.rules
            → s.attribute ≡ name
            → (s ≡ r) ⊎ (r.precedence < s.precedence))
        → decide fullmatch policy subject name values consented
          ≡ apply_rule fullmatch r name values consented
    unfolding decide decide_known decide_by_rules
    decide_least_precedence a r known free shown_record listed about least =
        rw (known, free, shown_record)
          (elim (Option-cases (governing policy name)) [
            | inl gone ↦
                cc (
                  find?-none (is_for name) (Within-sort_by (by_key precedence_of) listed) gone,
                  hit,
                )
            | inr (s, found) ↦
                rw found
                  (elim (least s
                    (Within-of_sort_by (by_key precedence_of) policy.rules
                      (find?-sound (is_for name) _ found).0)
                    ((==_iff s.attribute name).0 (find?-sound (is_for name) _ found).1)) [
                      | inl same ↦ rw same
                      | inr above ↦
                          let below : s.precedence ≤ r.precedence =
                            find?-sort_by_least precedence_of (is_for name) policy.rules found
                              listed hit in
                          absurd (omega arith)
                    ])
          ])
      where
        hit : is_for name r ≡ true
        hit = (==_iff r.attribute name).1 about

    -- Default deny: an attribute that no rule of the policy is about and that is outside the
    -- entity-category bundle is withheld, whoever the subject is and whatever is consented to.
    pub decide_default_deny :
        ((s : ReleaseRule) → Within s policy.rules → s.attribute ≢ name)
        → in_entity_category_bundle policy name ≡ false
        → (decide fullmatch policy subject name values consented).released ≡ false
    decide_default_deny unnamed outside =
        settle decide-Outcome (elim (Option-cases (governing policy name)) [
          | inl gone ↦ gone
          | inr (s, found) ↦ absurd (
              unnamed s
                (Within-of_sort_by (by_key precedence_of) policy.rules
                  (find?-sound (is_for name) _ found).0)
                ((==_iff s.attribute name).0 (find?-sound (is_for name) _ found).1))
        ])
      where
        settle :
            {o : Option AttributeDefinition} {d : Decision}
            → Outcome o d
            → governing policy name ≡ none
            → d.released ≡ false
        settle (refused r v a) gone = r
        settle (ruled a e r s p) gone = unfold decide_by_rules in rw (p, gone, outside)

  released_of-Within :
      (ds : List Decision) {entry : String × List String}
      → Within entry (released_of ds)
      → (d : Decision) × Within d ds
        × (d.released ≡ true)
        × (is_empty d.values ≡ false)
        × (entry ≡ (d.attribute, d.values))
  released_of-Within [] w = elim w [ ]
  released_of-Within (d ∷ ds) w = elim (Bool-cases (d.released && not (is_empty d.values))) [
    | inl kept ↦ elim (Within-cons (rw kept at w)) [
      | inl e ↦ (d, here, ground arith, ground arith, e)
      | inr v ↦ let (c, u, r, n, e) = released_of-Within ds v in (c, there u, r, n, e)
    ]
    | inr dropped ↦
        let (c, u, r, n, e) = released_of-Within ds (rw dropped at w) in (c, there u, r, n, e)
  ]

  module _ (policy : ReleasePolicy) (subject : Subject) (available : Attributes)
      (consented : List String) where
    abbrev decide_entry : String × List String → Decision
    decide_entry entry = decide fullmatch policy subject entry.0 entry.1 consented

    Releasable-entry :
        (held : String × List String)
        → Within held available
        → (decide_entry held).released ≡ true
        → is_empty (decide_entry held).values ≡ false
        → Releasable policy subject available
            ((decide_entry held).attribute, (decide_entry held).values)
    Releasable-entry held w r n =
        let out = decide-Outcome policy subject held.0 held.1 consented in
        let named = Outcome-attribute policy subject held.0 held.1 consented out in
        let (a, known, free, open_record) =
          Outcome-released policy subject held.0 held.1 consented out r in
        record {
          attribute = a;
          known = rw named known;
          not_restricted = free;
          not_suppressed = open_record;
          held = held.1;
          available_held = rw named w;
          values_held = Outcome-values policy subject held.0 held.1 consented out;
          some_value = n;
        }

    -- Whatever the policy's rules and the consents say: each attribute that is released is in the
    -- catalogue, is no restricted record, is not withheld by FERPA suppression, is one that the
    -- broker holds, and is released with at least one value and with held values alone.
    pub evaluate-Releasable :
        (entry : String × List String)
        → Within entry (evaluate fullmatch policy subject available consented).attributes
        → Releasable policy subject available entry
    unfolding evaluate sorted_entries
    evaluate-Releasable entry w =
        let (d, u, r, n, e) = released_of-Within _ w in
        let (held, v, same) = Within-of_map decide_entry _ u in
        rw (e, same)
          (Releasable-entry held (Within-of_sort_by _ available v) (rw same at r) (rw same at n))

    -- Every attribute that the broker holds, released or not, has its decision recorded.
    pub evaluate_records_all :
        (entry : String × List String)
        → Within entry available
        → Within
            (decide fullmatch policy subject entry.0 entry.1 consented)
            (evaluate fullmatch policy subject available consented).decisions
    unfolding evaluate sorted_entries
    evaluate_records_all entry w = Within-map decide_entry (Within-sort_by _ w)
