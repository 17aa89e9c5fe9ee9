-- ===== src/Lifecycle/Grace.antt =====
-- The grace periods that campusid/lifecycle/rules.py accepts, and what they make of a transition.
use campus_id.Shared.{
  ℕ, ◌≤◌, String, inl, inr, List, [], ◌∷◌, ◌==◌, ltb, arith, Bool-cases, contains, is_some,
  starts_with, here, there, Within-cons,
}
use campus_id.Lifecycle.Document.{
  Doc, null, negative, real, boolean, whole, text, sequence, mapping, Docs, nil, cons, Fields,
  Loaded, ok, rules_error, type_error, field_or,
}
use campus_id.Lifecycle.Rules.{Entitlement, entitlement_of, grace_of}
use campus_id.Lifecycle.Declared.{Holds, Bounded}
use campus_id.Lifecycle.Loader

abbrev Capped : Entitlement → Type 0
Capped e = e.grace_days ≤ Loader.max_grace_days

entitlement_name-bounded :
    (entry : Fields) (urn classification : String) (grace : ℕ) (doc : Doc)
    → grace ≤ Loader.max_grace_days
    → Holds Capped (Loader.entitlement_name entry urn classification grace doc)
entitlement_name-bounded entry urn classification grace (text name) h =
    elim (Bool-cases (name == "")) [ inl e ↦ rw e tt | inr e ↦ rw e h ]
entitlement_name-bounded entry urn classification grace null h = tt
entitlement_name-bounded entry urn classification grace negative h = tt
entitlement_name-bounded entry urn classification grace (real b) h = tt
entitlement_name-bounded entry urn classification grace (boolean b) h = tt
entitlement_name-bounded entry urn classification grace (whole n) h = tt
entitlement_name-bounded entry urn classification grace (sequence ds) h = tt
entitlement_name-bounded entry urn classification grace (mapping fs) h = tt

entitlement_grace-bounded :
    (entry : Fields) (urn classification : String) (doc : Doc)
    → Holds Capped (Loader.entitlement_grace entry urn classification doc)
entitlement_grace-bounded entry urn classification (whole grace) =
    elim (Bool-cases (ltb Loader.max_grace_days grace)) [
      | inl e ↦ rw e tt
      | inr e ↦ rw e (
          entitlement_name-bounded entry urn classification grace
            (field_or entry "display_name" null) (ground arith))
    ]
entitlement_grace-bounded entry urn classification null = tt
entitlement_grace-bounded entry urn classification negative = tt
entitlement_grace-bounded entry urn classification (real b) = tt
entitlement_grace-bounded entry urn classification (boolean b) = tt
entitlement_grace-bounded entry urn classification (text s) = tt
entitlement_grace-bounded entry urn classification (sequence ds) = tt
entitlement_grace-bounded entry urn classification (mapping fs) = tt

entitlement_class-bounded :
    (entry : Fields) (urn : String) (doc : Doc)
    → Holds Capped (Loader.entitlement_class entry urn doc)
entitlement_class-bounded entry urn (text classification) =
    elim (Bool-cases (contains classification Loader.classifications)) [
      | inl e ↦ rw e (
          entitlement_grace-bounded entry urn classification
            (field_or entry "grace_days" (whole 0)))
      | inr e ↦ rw e tt
    ]
entitlement_class-bounded entry urn null = tt
entitlement_class-bounded entry urn negative = tt
entitlement_class-bounded entry urn (real b) = tt
entitlement_class-bounded entry urn (boolean b) = tt
entitlement_class-bounded entry urn (whole n) = tt
entitlement_class-bounded entry urn (sequence ds) = tt
entitlement_class-bounded entry urn (mapping fs) = tt

entitlement_urn-bounded :
    (catalogue : List Entitlement) (entry : Fields) (doc : Doc)
    → Holds Capped (Loader.entitlement_urn catalogue entry doc)
entitlement_urn-bounded catalogue entry (text urn) = elim (Bool-cases (starts_with urn "urn:")) [
  | inr e ↦ rw e tt
  | inl e ↦ elim (Bool-cases (is_some (entitlement_of catalogue urn))) [
    | inl f ↦ rw (e, f) tt
    | inr f ↦
        rw (e, f)
          (entitlement_class-bounded entry urn (field_or entry "classification" (text "internal")))
  ]
]
entitlement_urn-bounded catalogue entry null = tt
entitlement_urn-bounded catalogue entry negative = tt
entitlement_urn-bounded catalogue entry (real b) = tt
entitlement_urn-bounded catalogue entry (boolean b) = tt
entitlement_urn-bounded catalogue entry (whole n) = tt
entitlement_urn-bounded catalogue entry (sequence ds) = tt
entitlement_urn-bounded catalogue entry (mapping fs) = tt

entitlement_entry-bounded :
    (catalogue : List Entitlement) (doc : Doc)
    → Holds Capped (Loader.entitlement_entry catalogue doc)
entitlement_entry-bounded catalogue (mapping entry) =
    entitlement_urn-bounded catalogue entry (field_or entry "urn" null)
entitlement_entry-bounded catalogue null = tt
entitlement_entry-bounded catalogue negative = tt
entitlement_entry-bounded catalogue (real b) = tt
entitlement_entry-bounded catalogue (boolean b) = tt
entitlement_entry-bounded catalogue (whole n) = tt
entitlement_entry-bounded catalogue (text s) = tt
entitlement_entry-bounded catalogue (sequence ds) = tt

adding-Bounded :
    (catalogue : List Entitlement) (entry : Loaded Entitlement)
    (continue : List Entitlement → Loaded (List Entitlement))
    → Bounded catalogue
    → Holds Capped entry
    → ((c : List Entitlement) → Bounded c → Holds Bounded (continue c))
    → Holds Bounded (Loader.adding catalogue entry continue)
adding-Bounded catalogue (ok e) continue b h k =
    k (e ∷ catalogue) (λ x w. elim (Within-cons w) [ inl p ↦ rw p h | inr v ↦ b x v ])
adding-Bounded catalogue rules_error continue b h k = tt
adding-Bounded catalogue type_error continue b h k = tt

entitlement_loop-Bounded :
    (docs : Docs) (catalogue : List Entitlement)
    → Bounded catalogue
    → Holds Bounded (Loader.entitlement_loop docs catalogue)
entitlement_loop-Bounded nil catalogue b = b
entitlement_loop-Bounded (cons entry rest) catalogue b =
    adding-Bounded catalogue (Loader.entitlement_entry catalogue entry)
      (Loader.entitlement_loop rest) b (entitlement_entry-bounded catalogue entry)
      (entitlement_loop-Bounded rest)

pub entitlements-Bounded : (doc : Doc) → Holds Bounded (Loader.entitlements doc)
unfolding Loader.entitlements
entitlements-Bounded (sequence (cons entry rest)) =
    entitlement_loop-Bounded (cons entry rest) [] (λ e w. elim w [ ])
entitlements-Bounded (sequence nil) = tt
entitlements-Bounded null = tt
entitlements-Bounded negative = tt
entitlements-Bounded (real b) = tt
entitlements-Bounded (boolean b) = tt
entitlements-Bounded (whole n) = tt
entitlements-Bounded (text s) = tt
entitlements-Bounded (mapping fs) = tt

-- A catalogue whose grace periods are bounded answers a bounded one.
pub grace_of-Bounded :
    (catalogue : List Entitlement) (urn : String)
    → Bounded catalogue
    → grace_of (entitlement_of catalogue urn) ≤ Loader.max_grace_days
grace_of-Bounded [] urn b = omega arith
grace_of-Bounded (e ∷ catalogue) urn b = elim (Bool-cases (e.urn == urn)) [
  | inl p ↦ rw p (b e here)
  | inr p ↦ rw p (grace_of-Bounded catalogue urn (λ x w. b x (there w)))
]
