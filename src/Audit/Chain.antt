-- ===== src/Audit/Chain.antt =====
-- campusid/audit/chain.py and the chain part of campusid/audit/log.py. What Python and its libraries
-- do is the record `Host`: `json.dumps` with sorted keys, SHA-256 in hexadecimal, the UTC text of a
-- moment, `str` of any other object, and `str(value or "")` of any value. A hash is the list of its characters.
use campus_id.Shared.{
  ℕ, zero, suc, ◌≡◌, String, Bool, true, false, ◌&&◌, Option, none, some, List, [], ◌∷◌, ◌++◌, leb,
  ltb, eqb, ◌==◌, text_le, if◌then◌else◌, filter, length,
}

abbrev pub Text : Type 0
Text = List ℕ

abbrev pub text_eq : Text → Text → Bool
text_eq [] [] = true
text_eq (x ∷ xs) (y ∷ ys) = eqb x y && text_eq xs ys
text_eq _ _ = false

-- A value of a row: what `_render` tells apart.
mutual
  pub data Value (Number Moment Other : Type 0) : Type 0 where
    null : Value Number Moment Other
    boolean : Bool → Value Number Moment Other
    number : Number → Value Number Moment Other
    text : String → Value Number Moment Other
    moment : Moment → Value Number Moment Other
    other : Other → Value Number Moment Other
    array : Items Number Moment Other → Value Number Moment Other
    dict : Fields Number Moment Other → Value Number Moment Other

  pub data Items (Number Moment Other : Type 0) : Type 0 where
    nil : Items Number Moment Other
    cons : Value Number Moment Other → Items Number Moment Other → Items Number Moment Other

  pub data Fields (Number Moment Other : Type 0) : Type 0 where
    end : Fields Number Moment Other
    field :
        String → Value Number Moment Other → Fields Number Moment Other → Fields Number Moment Other

pub record Host : Type 1 where
  pub Number : Type 0
  pub Moment : Type 0
  pub Other : Type 0
  pub dumps : Value Number Moment Other → Text
  pub sha256 : Text → Text
  pub utc_text : Moment → String
  pub str : Other → String
  pub str_or_empty : Value Number Moment Other → String
  pub sha256_length : (material : Text) → length (sha256 material) ≡ 64

-- `"0" * 64`
unfoldable pub zeros : ℕ → Text
zeros zero = []
zeros (suc n) = b'0' ∷ zeros n

abbrev pub genesis : Text
genesis = zeros 64

pub data Problem : Type 0 where
  altered unlinked out_of_order : Problem

abbrev pub hashed_fields : List String
hashed_fields =
    "event_id" ∷ "event_type" ∷ "outcome" ∷ "occurred_at" ∷ "correlation_id" ∷ "actor" ∷ "subject"
    ∷ "target" ∷ "reason" ∷ "source_ip" ∷ "user_agent" ∷ "session_id" ∷ "detail" ∷ []

-- `last_seq is not None and seq <= last_seq`
abbrev pub not_after : Option ℕ → ℕ → Bool
not_after none seq = false
not_after (some last) seq = leb seq last

module _ (host : Host) where
  open host use {Number, Moment, Other, dumps, sha256, utc_text, str, str_or_empty}

  abbrev pub Cell : Type 0
  Cell = Value Number Moment Other

  abbrev Cells : Type 0
  Cells = Fields Number Moment Other

  abbrev Elements : Type 0
  Elements = Items Number Moment Other

  -- `sorted(value.items())` of a dictionary, whose keys are texts and differ.
  pub insert_field : String → Cell → Cells → Cells
  insert_field k v end = field k v end
  insert_field k v (field j w rest) =
      let deeper = insert_field k v rest in
      if text_le k j then field k v (field j w rest) else field j w deeper

  unfoldable mutual
    unfolding insert_field

    pub render : Cell → Cell
    render null = null
    render (boolean b) = boolean b
    render (number n) = number n
    render (text s) = text s
    render (moment m) = text (utc_text m)
    render (other o) = text (str o)
    render (array xs) = array (render_items xs)
    render (dict fs) = dict (render_fields fs)

    pub render_items : Elements → Elements
    render_items nil = nil
    render_items (cons x xs) = cons (render x) (render_items xs)

    pub render_fields : Cells → Cells
    render_fields end = end
    render_fields (field k v rest) = insert_field k (render v) (render_fields rest)

  -- A row as the verifier reads it. `seq`, `prev_hash` and `hash` are the values that `verify_from`
  -- reads, 0 and the empty text where the row has none; `columns` is the dictionary.
  pub record Event : Type 0 where
    pub seq : ℕ
    pub prev_hash : Text
    pub hash : Text
    pub columns : List (String × Cell)

  -- `event.get(name)`
  unfoldable pub column : String → List (String × Cell) → Cell
  column name [] = null
  column name ((k, v) ∷ rest) = if k == name then v else column name rest

  payload : List String → List (String × Cell) → Cells
  unfolding column render
  payload [] columns = end
  payload (name ∷ names) columns = field name (render (column name columns)) (payload names columns)

  unfoldable pub canonical : List (String × Cell) → Text
  unfolding payload
  canonical columns = dumps (dict (payload hashed_fields columns))

  unfoldable pub link : Text → List (String × Cell) → Text
  unfolding canonical
  link previous columns = sha256 (previous ++ canonical columns)

  pub record Broken : Type 0 where
    pub seq : ℕ
    pub event_id : String
    pub problem : Problem

  abbrev pub broken : Event → Problem → Broken
  broken event problem = record {
    seq = event.seq;
    event_id = str_or_empty (column "event_id" event.columns);
    problem = problem;
  }

  -- The loop of `verify_from`.
  unfoldable pub verify_loop : Option ℕ → Text → List Event → Option Broken
  unfolding link
  verify_loop last_seq expected [] = none
  verify_loop last_seq expected (event ∷ events) =
      let computed = link expected event.columns in
      let rest = verify_loop (some event.seq) computed events in
      if not_after last_seq event.seq
      then some (broken event out_of_order)
      else if text_eq event.prev_hash expected
      then (if text_eq computed event.hash then rest else some (broken event altered))
      else some (broken event unlinked)

  unfoldable pub verify_from : Text → List Event → Option Broken
  unfolding verify_loop
  verify_from expected events = verify_loop none expected events

  unfoldable pub verify : List Event → Option Broken
  unfolding verify_from
  verify events = verify_from genesis events

  -- `events[-1]["hash"]`, or the start where there is no event.
  unfoldable pub last_hash : Text → List Event → Text
  last_hash start [] = start
  last_hash start (event ∷ events) = last_hash event.hash events

  unfoldable pub head : List Event → Text
  unfolding last_hash
  head events = last_hash genesis events

  -- The rows of a batch: `seq > last_seq`, in order, at most so many. The trail is the table in the
  -- order of its sequence numbers.
  unfoldable pub take : ℕ → List Event → List Event
  take zero events = []
  take (suc n) [] = []
  take (suc n) (event ∷ events) = event ∷ take n events

  unfoldable pub batch_after : ℕ → ℕ → List Event → List Event
  unfolding take
  batch_after batch last_seq trail = take batch (filter (λ event. ltb last_seq event.seq) trail)

  unfoldable pub last_seq_of : ℕ → List Event → ℕ
  last_seq_of last [] = last
  last_seq_of last (event ∷ events) = last_seq_of event.seq events

  -- One turn of the loop of `AuditLog.verify_chain`: what the rows of the batch lead to, where
  -- `resume` is the next turn.
  report : (Text → ℕ → Option (Option Broken)) → Text → ℕ → Option Broken → Option (Option Broken)
  report resume expected last_seq (some found) = some (some found)
  report resume expected last_seq none = resume expected last_seq

  after_batch : (Text → ℕ → Option (Option Broken)) → Text → ℕ → List Event → Option (Option Broken)
  unfolding report verify_from last_hash last_seq_of
  after_batch resume expected last_seq [] = some none
  after_batch resume expected last_seq (event ∷ events) =
      report resume (last_hash expected (event ∷ events)) (last_seq_of last_seq (event ∷ events))
        (verify_from expected (event ∷ events))

  -- The loop, on fuel. The outer `none` is fuel that ran out.
  unfoldable pub verify_batches : ℕ → ℕ → List Event → Text → ℕ → Option (Option Broken)
  unfolding after_batch batch_after
  verify_batches zero batch trail expected last_seq = none
  verify_batches (suc fuel) batch trail expected last_seq =
      after_batch (verify_batches fuel batch trail) expected last_seq
        (batch_after batch last_seq trail)

  -- `AuditLog.verify_chain`, from the hash that the surviving trail starts at.
  unfoldable pub verify_chain : ℕ → List Event → Text → Option (Option Broken)
  unfolding verify_batches
  verify_chain batch trail start = verify_batches (suc (length trail)) batch trail start 0

  -- `AuditLog._write`: the row links to the tail, or to the start where the table is empty. `seq` is
  -- what the database assigns.
  unfoldable pub write : Text → List Event → ℕ → List (String × Cell) → List Event
  unfolding link last_hash
  write start trail seq columns =
      let previous = last_hash start trail in
      trail
      ++ record { seq = seq; prev_hash = previous; hash = link previous columns; columns = columns }
        ∷ []
