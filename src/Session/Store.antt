-- ===== src/Session/Store.antt =====
-- campusid/session/store.py. SHA-256, JSON and ISO 8601 are the record `Host`; Redis is the
-- interface of Shared/Redis. Moments and timeouts are whole seconds. A fresh identifier of `new_sid`
-- is an argument; `prefix` keeps its default. The audit marker that `load` sets, the `now` of
-- `utcnow` and the default arguments of `create` are the caller's.
use campus_id.Shared.{
  ℕ, ◌+◌, ◌-◌, String, ◌≡◌, Bool, ◌||◌, Option, none, some, List, [], ◌∷◌, ◌==◌, leb, if◌then◌else◌,
  max, min, sorted_set,
}
use campus_id.Shared.Redis.{Redis, Key, get}
use Prim.Native.String.{◌++◌}

pub record Session (Attributes : Type 0) : Type 0 where
  pub sid : String
  pub idp_entity_id : String
  pub name_id : String
  pub name_id_format : Option String
  pub auth_time : ℕ
  pub created_at : ℕ
  pub last_seen_at : ℕ
  pub absolute_expiry : ℕ
  pub acr : Option String
  pub amr : List String
  pub session_index : Option String
  pub attributes : Attributes
  pub person_uuid : Option String
  pub impersonated_by : Option String

-- What `to_json` hands to `json.dumps`: the four moments as texts.
pub record Payload (Attributes : Type 0) : Type 0 where
  pub sid : String
  pub idp_entity_id : String
  pub name_id : String
  pub name_id_format : Option String
  pub auth_time : String
  pub created_at : String
  pub last_seen_at : String
  pub absolute_expiry : String
  pub acr : Option String
  pub amr : List String
  pub session_index : Option String
  pub attributes : Attributes
  pub person_uuid : Option String
  pub impersonated_by : Option String

pub record Host (Attributes : Type 0) : Type 0 where
  pub digest : String → String
  pub isoformat : ℕ → String
  pub fromisoformat : String → ℕ
  pub dumps : Payload Attributes → String
  pub loads : String → Payload Attributes
  pub time_round_trip : (t : ℕ) → fromisoformat (isoformat t) ≡ t
  pub json_round_trip : (p : Payload Attributes) → loads (dumps p) ≡ p

abbrev pub session_key : String → Key
session_key sid = record { prefix = "session:"; name = sid }

abbrev or_else : Option String → String → String
or_else none fallback = fallback
or_else (some s) fallback = if s == "" then fallback else s

module _ {Attributes : Type 0} (host : Host Attributes) where
  -- `Session.subject_key`
  unfoldable pub subject_key : Session Attributes → String
  subject_key session =
      or_else session.person_uuid (session.idp_entity_id ++ ("|" ++ session.name_id))

  -- `SessionStore._subject_key`
  abbrev pub subject_index : String → Key
  subject_index subject = record { prefix = "session:subject:"; name = host.digest subject }

  unfoldable pub to_json : Session Attributes → String
  to_json session = host.dumps (record {
    sid = session.sid;
    idp_entity_id = session.idp_entity_id;
    name_id = session.name_id;
    name_id_format = session.name_id_format;
    auth_time = host.isoformat session.auth_time;
    created_at = host.isoformat session.created_at;
    last_seen_at = host.isoformat session.last_seen_at;
    absolute_expiry = host.isoformat session.absolute_expiry;
    acr = session.acr;
    amr = session.amr;
    session_index = session.session_index;
    attributes = session.attributes;
    person_uuid = session.person_uuid;
    impersonated_by = session.impersonated_by;
  })

  unfoldable pub from_json : String → Session Attributes
  from_json raw =
      let payload = host.loads raw in
      record {
        sid = payload.sid;
        idp_entity_id = payload.idp_entity_id;
        name_id = payload.name_id;
        name_id_format = payload.name_id_format;
        auth_time = host.fromisoformat payload.auth_time;
        created_at = host.fromisoformat payload.created_at;
        last_seen_at = host.fromisoformat payload.last_seen_at;
        absolute_expiry = host.fromisoformat payload.absolute_expiry;
        acr = payload.acr;
        amr = payload.amr;
        session_index = payload.session_index;
        attributes = payload.attributes;
        person_uuid = payload.person_uuid;
        impersonated_by = payload.impersonated_by;
      }

  -- A stored session is read back as it was written.
  pub from_json-to_json : (session : Session Attributes) → from_json (to_json session) ≡ session
  unfolding from_json to_json
  from_json-to_json session = rw (
    host.json_round_trip,
    host.time_round_trip session.auth_time,
    host.time_round_trip session.created_at,
    host.time_round_trip session.last_seen_at,
    host.time_round_trip session.absolute_expiry,
  )

-- `_replace`: every field of `CARRIED_FORWARD`, then the changes, which every caller gives for these
-- fields.
unfoldable pub replace :
    {Attributes : Type 0}
    → Session Attributes
    → String
    → ℕ
    → ℕ
    → Option String
    → List String
    → Session Attributes
replace session sid auth_time last_seen_at acr amr = record {
  sid = sid;
  idp_entity_id = session.idp_entity_id;
  name_id = session.name_id;
  name_id_format = session.name_id_format;
  auth_time = auth_time;
  created_at = session.created_at;
  last_seen_at = last_seen_at;
  absolute_expiry = session.absolute_expiry;
  acr = acr;
  amr = amr;
  session_index = session.session_index;
  attributes = session.attributes;
  person_uuid = session.person_uuid;
  impersonated_by = session.impersonated_by;
}

abbrev pub touch : {Attributes : Type 0} → Session Attributes → ℕ → Session Attributes
touch session now = replace session session.sid session.auth_time now session.acr session.amr

abbrev pub renamed : {Attributes : Type 0} → Session Attributes → String → ℕ → Session Attributes
renamed session fresh now = replace session fresh session.auth_time now session.acr session.amr

-- Who a session is of, with what is told of them when it starts: the arguments of `create`.
pub record Start (Attributes : Type 0) : Type 0 where
  pub idp_entity_id : String
  pub name_id : String
  pub name_id_format : Option String
  pub auth_time : Option ℕ
  pub acr : Option String
  pub amr : List String
  pub session_index : Option String
  pub attributes : Attributes
  pub person_uuid : Option String
  pub impersonated_by : Option String

abbrev or_now : Option ℕ → ℕ → ℕ
or_now none now = now
or_now (some t) now = t

-- The store, with `idle_timeout` and `absolute_timeout`.
module _ {Attributes : Type 0} (host : Host Attributes) (redis : Redis) (idle absolute : ℕ) where
  open redis use {Store, members_at, set, delete, sadd, srem, expire}

  -- `_write`
  unfoldable pub write : Session Attributes → ℕ → Store → Store
  unfolding subject_key
  write session now s =
      let remaining = session.absolute_expiry - now in
      let stored =
        set (session_key session.sid) (to_json host session) (max (min idle remaining) 1) s in
      let index = subject_index host (subject_key host session) in
      expire index (max absolute 1) (sadd index session.sid stored)

  -- `create`, where `_write` reads the clock again, at `written`.
  unfoldable pub create : Start Attributes → String → ℕ → ℕ → Store → Store × Session Attributes
  unfolding write
  create start fresh now written s =
      let session : Session Attributes = record {
        sid = fresh;
        idp_entity_id = start.idp_entity_id;
        name_id = start.name_id;
        name_id_format = start.name_id_format;
        auth_time = or_now start.auth_time now;
        created_at = now;
        last_seen_at = now;
        absolute_expiry = now + absolute;
        acr = start.acr;
        amr = start.amr;
        session_index = start.session_index;
        attributes = start.attributes;
        person_uuid = start.person_uuid;
        impersonated_by = start.impersonated_by;
      } in
      (write session written s, session)

  unfoldable pub destroy_found : String → Option String → Store → Store
  destroy_found sid none s = delete (session_key sid) s
  destroy_found sid (some raw) s =
      delete (session_key sid)
        (srem (subject_index host (subject_key host (from_json host raw))) sid s)

  unfoldable pub destroy : String → Store → Store
  unfolding destroy_found
  destroy sid s = destroy_found sid (get redis (session_key sid) s) s

  -- `now >= absolute_expiry or now - last_seen_at >= idle`, where `now - last_seen_at` can be
  -- negative.
  unfoldable pub timed_out : Session Attributes → ℕ → Bool
  timed_out session now = leb session.absolute_expiry now || leb (session.last_seen_at + idle) now

  unfoldable pub load_found :
      String → ℕ → Option String → Store → Store × Option (Session Attributes)
  unfolding destroy write timed_out
  load_found sid now none s = (s, none)
  load_found sid now (some raw) s =
      let session = from_json host raw in
      if timed_out session now
      then (destroy sid s, none)
      else (write (touch session now) now s, some (touch session now))

  unfoldable pub load : String → ℕ → Store → Store × Option (Session Attributes)
  unfolding load_found
  load sid now s = load_found sid now (get redis (session_key sid) s) s

  unfoldable pub move_to :
      String
      → (Session Attributes → Session Attributes)
      → ℕ
      → Store × Option (Session Attributes)
      → Store × Option (Session Attributes)
  unfolding destroy write
  move_to sid change now (s, none) = (s, none)
  move_to sid change now (s, some session) =
      (destroy sid (write (change session) now s), some (change session))

  unfoldable pub rotate : String → String → ℕ → Store → Store × Option (Session Attributes)
  unfolding load move_to
  rotate sid fresh now s = move_to sid (λ session. renamed session fresh now) now (load sid now s)

  unfoldable pub elevate :
      String → String → String → List String → ℕ → Store → Store × Option (Session Attributes)
  unfolding load move_to
  elevate sid fresh acr amr now s =
      move_to sid (λ session. replace session fresh now now (some acr) amr) now (load sid now s)

  -- `sids_for`, where `set_members` of campusid/cache.py sorts the members.
  unfoldable pub sids_for : String → Store → List String
  sids_for subject s = sorted_set (members_at s (subject_index host subject))

  unfoldable pub destroy_all : List String → Store → Store
  unfolding destroy
  destroy_all [] s = s
  destroy_all (sid ∷ sids) s = destroy_all sids (destroy sid s)

  unfoldable pub terminate_subject : String → Store → Store × List String
  unfolding destroy_all sids_for
  terminate_subject subject s =
      let sids = sids_for subject s in
      (delete (subject_index host subject) (destroy_all sids s), sids)
