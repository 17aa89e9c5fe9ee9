-- ===== src/Lifecycle/Document.antt =====
-- A document that PyYAML answers to campusid/lifecycle/rules.py. A mapping has its text keys, which
-- are the ones that the code reads. YAML's dates are left out.
use campus_id.Shared.{ℕ, String, Bool, true, false, not, ◌==◌, ltb, if◌then◌else◌}

mutual
  pub data Doc : Type 0 where
    null negative : Doc
    real : Bool → Doc
    boolean : Bool → Doc
    whole : ℕ → Doc
    text : String → Doc
    sequence : Docs → Doc
    mapping : Fields → Doc

  pub data Docs : Type 0 where
    nil : Docs
    cons : Doc → Docs → Docs

  pub data Fields : Type 0 where
    end : Fields
    field : String → Doc → Fields → Fields

-- What the loader answers: a result, its own LifecycleRulesError, or a TypeError.
pub data Loaded (A : Type 0) : Type 0 where
  ok : A → Loaded A
  rules_error type_error : Loaded A

-- `entry.get(name, default)`
abbrev pub field_or : Fields → String → Doc → Doc
field_or end name default = default
field_or (field key value rest) name default =
    let later = field_or rest name default in if key == name then value else later

-- `bool(value)`. A `real` is a float with the answer to whether it is nonzero.
abbrev pub truth : Doc → Bool
truth null = false
truth negative = true
truth (real nonzero) = nonzero
truth (boolean b) = b
truth (whole n) = ltb 0 n
truth (text s) = not (s == "")
truth (sequence nil) = false
truth (sequence (cons d ds)) = true
truth (mapping end) = false
truth (mapping (field k d rest)) = true
