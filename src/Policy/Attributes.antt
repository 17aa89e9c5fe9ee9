-- ===== src/Policy/Attributes.antt =====
-- campusid/policy/attributes.py: the attribute catalogue and the R&S bundle.
use campus_id.Shared.{String, Bool, true, false, Option, List, [], ◌∷◌, ◌==◌, find?}

pub data Classification : Type 0 where
  public directory internal restricted : Classification

pub record AttributeDefinition : Type 0 where
  pub name : String
  pub friendly_name : String
  pub classification : Classification
  pub ferpa_directory_item : Bool
  pub multivalued : Bool

abbrev pub eppn : String
eppn = "urn:oid:1.3.6.1.4.1.5923.1.1.1.6"

abbrev pub unique_id : String
unique_id = "urn:oid:1.3.6.1.4.1.5923.1.1.1.13"

abbrev pub subject_id : String
subject_id = "urn:oasis:names:tc:SAML:attribute:subject-id"

abbrev pub pairwise_id : String
pairwise_id = "urn:oasis:names:tc:SAML:attribute:pairwise-id"

abbrev pub mail : String
mail = "urn:oid:0.9.2342.19200300.100.1.3"

abbrev pub display_name : String
display_name = "urn:oid:2.16.840.1.113730.3.1.241"

abbrev pub given_name : String
given_name = "urn:oid:2.5.4.42"

abbrev pub surname : String
surname = "urn:oid:2.5.4.4"

abbrev pub scoped_affiliation : String
scoped_affiliation = "urn:oid:1.3.6.1.4.1.5923.1.1.1.9"

abbrev pub affiliation : String
affiliation = "urn:oid:1.3.6.1.4.1.5923.1.1.1.1"

abbrev pub primary_affiliation : String
primary_affiliation = "urn:oid:1.3.6.1.4.1.5923.1.1.1.5"

abbrev pub entitlement : String
entitlement = "urn:oid:1.3.6.1.4.1.5923.1.1.1.7"

abbrev pub assurance : String
assurance = "urn:oid:1.3.6.1.4.1.5923.1.1.1.11"

abbrev pub org_unit : String
org_unit = "urn:oid:2.5.4.11"

abbrev pub orcid : String
orcid = "urn:oid:1.3.6.1.4.1.5923.1.1.1.16"

abbrev pub student_id : String
student_id = "urn:campusid:attribute:student-id"

abbrev pub employee_id : String
employee_id = "urn:campusid:attribute:employee-id"

abbrev pub research_and_scholarship : String
research_and_scholarship = "http://refeds.org/category/research-and-scholarship"

attribute : String → String → Classification → Bool → Bool → AttributeDefinition
attribute name friendly classification ferpa multi = record {
  name = name;
  friendly_name = friendly;
  classification = classification;
  ferpa_directory_item = ferpa;
  multivalued = multi;
}

unfoldable pub catalogue : List AttributeDefinition
unfolding attribute
catalogue =
    attribute subject_id "subject-id" directory false false
    ∷ attribute pairwise_id "pairwise-id" public false false
    ∷ attribute eppn "eduPersonPrincipalName" directory false false
    ∷ attribute unique_id "eduPersonUniqueId" internal false false
    ∷ attribute mail "mail" directory true true
    ∷ attribute display_name "displayName" directory true false
    ∷ attribute given_name "givenName" directory true false
    ∷ attribute surname "sn" directory true false
    ∷ attribute scoped_affiliation "eduPersonScopedAffiliation" directory true true
    ∷ attribute affiliation "eduPersonAffiliation" directory true true
    ∷ attribute primary_affiliation "eduPersonPrimaryAffiliation" directory true false
    ∷ attribute org_unit "ou" directory true true
    ∷ attribute entitlement "eduPersonEntitlement" internal false true
    ∷ attribute assurance "eduPersonAssurance" internal false true
    ∷ attribute orcid "eduPersonOrcid" public false false
    ∷ attribute student_id "studentID" restricted false false
    ∷ attribute employee_id "employeeNumber" restricted false false
    ∷ []

unfoldable pub rs_bundle : List String
rs_bundle = subject_id ∷ eppn ∷ mail ∷ display_name ∷ given_name ∷ surname ∷ scoped_affiliation ∷ []

-- `CATALOGUE.get(name)`
unfoldable pub definition : String → Option AttributeDefinition
unfolding catalogue
definition name = find? (λ d. d.name == name) catalogue
