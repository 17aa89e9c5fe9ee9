-- ===== src/Policy/Normalize.antt =====
-- campusid/policy/normalize.py: the values that are held about a person are cleaned before a release.
-- `str.strip` and `str.lower` are the record `Host`.
use campus_id.Shared.{
  String, Bool, true, false, not, ◌||◌, Option, none, some, List, [], ◌∷◌, ◌++◌, ◌==◌, any, map,
  if◌then◌else◌,
}
use campus_id.Shared.Texts.{Text, codes, text_eq, rpartition}
use campus_id.Lifecycle.Loader.{affiliation_vocabulary}
use campus_id.Policy.Attributes.{eppn, mail, scoped_affiliation, affiliation, primary_affiliation}

pub record Host : Type 0 where
  pub strip : Text → Text
  pub lower : Text → Text

pub data Reason : Type 0 where
  empty not_scoped foreign_scope outside_vocabulary not_an_address : Reason

-- A value that is normalised, or why it cannot be.
pub data Normalized : Type 0 where
  kept : Text → Normalized
  rejected : Reason → Normalized

pub record DroppedValue : Type 0 where
  pub attribute : String
  pub raw : Text
  pub reason : Reason

pub record NormalizationResult : Type 0 where
  pub attributes : List (String × List Text)
  pub dropped : List DroppedValue

abbrev pub among : List Text → Text → Bool
among texts s = any (λ t. text_eq t s) texts

-- `AFFILIATION_VOCABULARY`
abbrev pub vocabulary : List Text
vocabulary = map codes affiliation_vocabulary

abbrev pub in_vocabulary : Option (List Text) → Text → Bool
in_vocabulary none local = true
in_vocabulary (some texts) local = among texts local

abbrev pub is_empty_text : Text → Bool
is_empty_text [] = true
is_empty_text (c ∷ s) = false

abbrev pub scoped_parts : Text → Text → Option (List Text) → Option (Text × Text) → Normalized
scoped_parts s scope texts none = rejected not_scoped
scoped_parts s scope texts (some (local, asserted)) =
    if is_empty_text local
    then rejected not_scoped
    else if not (text_eq asserted scope)
    then rejected foreign_scope
    else if not (in_vocabulary texts local)
    then rejected outside_vocabulary
    else kept s

-- `_scoped`
unfoldable pub scoped : Text → Text → Option (List Text) → Normalized
scoped s scope texts = scoped_parts s scope texts (rpartition b'@' s)

module _ (host : Host) where
  abbrev pub mail_parts : Option (Text × Text) → Normalized
  mail_parts none = rejected not_an_address
  mail_parts (some (local, domain)) =
      if is_empty_text local || is_empty_text domain
      then rejected not_an_address
      else kept (local ++ (b'@' ∷ host.lower domain))

  -- `_normalize_value`, of a value that is not empty.
  abbrev pub normalize_filled : String → Text → Text → Normalized
  normalize_filled name s scope =
      if name == eppn
      then scoped (host.lower s) scope none
      else if name == scoped_affiliation
      then scoped (host.lower s) scope (some vocabulary)
      else if (name == affiliation) || (name == primary_affiliation)
      then (if among vocabulary (host.lower s)
          then kept (host.lower s)
          else rejected outside_vocabulary)
      else if name == mail
      then mail_parts (rpartition b'@' s)
      else kept s

  -- `_normalize_value`
  unfoldable pub normalize_value : String → Text → Text → Normalized
  unfolding scoped
  normalize_value name s scope =
      if is_empty_text s then rejected empty else normalize_filled name s scope

  -- The values of one attribute: those kept so far, with those dropped after them.
  abbrev pub after_value :
      String
      → Text
      → Normalized
      → List Text
      → (List Text → List Text × List DroppedValue)
      → List Text × List DroppedValue
  after_value name raw (rejected reason) values next =
      ((next values).0, record { attribute = name; raw = raw; reason = reason } ∷ (next values).1)
  after_value name raw (kept s) values next =
      if among values s then next values else next (values ++ (s ∷ []))

  unfoldable pub normalize_values :
      String → Text → List Text → List Text → List Text × List DroppedValue
  unfolding normalize_value
  normalize_values name scope [] values = (values, [])
  normalize_values name scope (raw ∷ rest) values =
      after_value name raw (normalize_value name (host.strip raw) scope) values
        (normalize_values name scope rest)

  abbrev pub with_attribute : String → List Text → NormalizationResult → NormalizationResult
  with_attribute name [] result = result
  with_attribute name values result = record {
    attributes = (name, values) ∷ result.attributes;
    dropped = result.dropped;
  }

  abbrev pub with_dropped : List DroppedValue → NormalizationResult → NormalizationResult
  with_dropped more result = record {
    attributes = result.attributes;
    dropped = more ++ result.dropped;
  }

  unfoldable pub normalize : List (String × List Text) → Text → NormalizationResult
  unfolding normalize_values
  normalize [] scope = record { attributes = []; dropped = [] }
  normalize ((name, values) ∷ rest) scope =
      let (now, gone) = normalize_values name scope values [] in
      with_dropped gone (with_attribute name now (normalize rest scope))
