-- ===== src/Session/Examples.antt =====
-- The session store at concrete values, with texts that encode lists in place of JSON.
use campus_id.Shared.{
  ◌<◌, ◌+◌, String, ◌≡◌, ◌≢◌, refl, true, false, none, some, List, [], ◌∷◌, ◌==◌, ==_iff, contains,
  if◌then◌else◌,
}
use campus_id.Shared.Redis.Functions.{function_redis, empty}
use campus_id.Shared.Codec.{digits_of, number_of, number_of-digits_of}
use campus_id.Shared.Codec.Lists.{
  encode, decode, decode-encode, encode_option, first_of, first_of-encode_option,
}
use campus_id.Session.Store.{
  Session, Payload, Start, Host, to_json, from_json, replace, touch, renamed, write, create,
  timed_out, load, load_found, rotate, move_to, elevate, sids_for, terminate_subject,
}
use campus_id.Session.Lifetime.{record_at, load_live}
use campus_id.Session.Moves.{rotate_moves, elevate_moves, terminate_subject_ends}

-- Attributes are left empty.
abbrev Record : Type 0
Record = Payload (Unit {0})

fields_of : Record → List String
fields_of p =
    p.sid
    ∷ p.idp_entity_id
    ∷ p.name_id
    ∷ encode_option p.name_id_format
    ∷ p.auth_time
    ∷ p.created_at
    ∷ p.last_seen_at
    ∷ p.absolute_expiry
    ∷ encode_option p.acr
    ∷ encode p.amr
    ∷ encode_option p.session_index
    ∷ encode_option p.person_uuid
    ∷ encode_option p.impersonated_by
    ∷ []

no_record : Record
no_record = record {
  sid = "";
  idp_entity_id = "";
  name_id = "";
  name_id_format = none;
  auth_time = "";
  created_at = "";
  last_seen_at = "";
  absolute_expiry = "";
  acr = none;
  amr = [];
  session_index = none;
  attributes = tt;
  person_uuid = none;
  impersonated_by = none;
}

read : List String → Record
read
      (sid ∷ idp ∷ name ∷ format ∷ auth ∷ created ∷ seen ∷ expiry ∷ acr ∷ amr ∷ index ∷ person
        ∷ actor ∷ []) =
    record {
      sid = sid;
      idp_entity_id = idp;
      name_id = name;
      name_id_format = first_of (decode format);
      auth_time = auth;
      created_at = created;
      last_seen_at = seen;
      absolute_expiry = expiry;
      acr = first_of (decode acr);
      amr = decode amr;
      session_index = first_of (decode index);
      attributes = tt;
      person_uuid = first_of (decode person);
      impersonated_by = first_of (decode actor);
    }
read _ = no_record

read-fields : (p : Record) → read (decode (encode (fields_of p))) ≡ p
unfolding read fields_of
read-fields p = rw (
  decode-encode (fields_of p),
  decode-encode p.amr,
  first_of-encode_option p.name_id_format,
  first_of-encode_option p.acr,
  first_of-encode_option p.session_index,
  first_of-encode_option p.person_uuid,
  first_of-encode_option p.impersonated_by,
)

abbrev host : Host (Unit {0})
host = record {
  digest = λ s. s;
  isoformat = digits_of;
  fromisoformat = number_of;
  dumps = λ p. encode (fields_of p);
  loads = λ s. read (decode s);
  time_round_trip = number_of-digits_of;
  json_round_trip = read-fields;
}

abbrev start : Start (Unit {0})
start = record {
  idp_entity_id = "idp";
  name_id = "ada";
  name_id_format = none;
  auth_time = none;
  acr = none;
  amr = "pwd" ∷ [];
  session_index = none;
  attributes = tt;
  person_uuid = some "p1";
  impersonated_by = none;
}

abbrev session : Session (Unit {0})
session = record {
  sid = "s1";
  idp_entity_id = "idp";
  name_id = "ada";
  name_id_format = none;
  auth_time = 2;
  created_at = 2;
  last_seen_at = 2;
  absolute_expiry = 22;
  acr = none;
  amr = "pwd" ∷ [];
  session_index = none;
  attributes = tt;
  person_uuid = some "p1";
  impersonated_by = none;
}

abbrev Store : Type 0
Store = function_redis.Store

-- The store after the session starts, with ten seconds of idle time and twenty in all.
started : Store
unfolding create
started = (create host function_redis 10 20 start "s1" 2 2 empty).0

started_record : record_at host function_redis 10 20 started "s1" ≡ some (to_json host session)
unfolding started create write to_json fields_of encode encode_option
started_record = refl

loaded : (load host function_redis 10 20 "s1" 5 started).1 ≡ some (touch session 5)
unfolding started load load_found timed_out create write to_json from_json fields_of read encode
    decode encode_option replace
loaded = refl

expired : timed_out host function_redis 10 20 (from_json host (to_json host session)) 12 ≡ true
unfolding timed_out to_json from_json fields_of read encode decode encode_option
expired = refl

rotated : (rotate host function_redis 10 20 "s1" "s2" 5 started).1 ≡ some (renamed session "s2" 5)
unfolding started rotate move_to load load_found timed_out create write to_json from_json fields_of
    read encode decode encode_option replace
rotated = refl

elevated :
    (elevate host function_redis 10 20 "s1" "s2" "aal2" ("otp" ∷ "pwd" ∷ []) 5 started).1
    ≡ some (replace session "s2" 5 5 (some "aal2") ("otp" ∷ "pwd" ∷ []))
unfolding started elevate move_to load load_found timed_out create write to_json from_json fields_of
    read encode decode encode_option replace
elevated = refl

fresh_differs : ◌≢◌ {A = String} "s2" "s1"
fresh_differs e = let h : ("s2" == "s1") ≡ true = (==_iff "s2" "s1").1 e in cc

load_live_example :
    (raw : String) × (record_at host function_redis 10 20 started "s1" ≡ some raw)
    × (5 < (from_json host raw).absolute_expiry)
    × (5 < (from_json host raw).last_seen_at + 10)
    × (touch session 5 ≡ record (from_json host raw) { last_seen_at = 5 })
load_live_example = load_live host function_redis 10 20 "s1" 5 started (touch session 5) loaded

rotate_moves_example :
    let after = (rotate host function_redis 10 20 "s1" "s2" 5 started).0 in
    ((raw : String) × (record_at host function_redis 10 20 started "s1" ≡ some raw)
      × (5 < (from_json host raw).absolute_expiry)
      × (5 < (from_json host raw).last_seen_at + 10)
      × (renamed session "s2" 5 ≡ record (from_json host raw) { sid = "s2"; last_seen_at = 5 }))
    × (record_at host function_redis 10 20 after "s1" ≡ none)
    × (record_at host function_redis 10 20 after "s2"
        ≡ some (to_json host (renamed session "s2" 5)))
rotate_moves_example =
    rotate_moves host function_redis 10 20 "s1" "s2" 5 started (renamed session "s2" 5)
      fresh_differs rotated

elevate_moves_example :
    let after =
      (elevate host function_redis 10 20 "s1" "s2" "aal2" ("otp" ∷ "pwd" ∷ []) 5 started).0 in
    let raised = replace session "s2" 5 5 (some "aal2") ("otp" ∷ "pwd" ∷ []) in
    ((raw : String) × (record_at host function_redis 10 20 started "s1" ≡ some raw)
      × (5 < (from_json host raw).absolute_expiry)
      × (5 < (from_json host raw).last_seen_at + 10)
      × (raised ≡ record (from_json host raw) {
        sid = "s2";
        auth_time = 5;
        last_seen_at = 5;
        acr = some "aal2";
        amr = "otp" ∷ "pwd" ∷ [];
      }))
    × (record_at host function_redis 10 20 after "s1" ≡ none)
    × (record_at host function_redis 10 20 after "s2" ≡ some (to_json host raised))
elevate_moves_example =
    elevate_moves host function_redis 10 20 "s1" "s2" "aal2" ("otp" ∷ "pwd" ∷ []) 5 started
      (replace session "s2" 5 5 (some "aal2") ("otp" ∷ "pwd" ∷ [])) fresh_differs elevated

terminate_subject_ends_example :
    let after = (terminate_subject host function_redis 10 20 "p1" started).0 in
    (record_at host function_redis 10 20 after "s1" ≡ (
      if contains "s1" (sids_for host function_redis 10 20 "p1" started)
      then none
      else record_at host function_redis 10 20 started "s1"))
    × (contains "s1" (sids_for host function_redis 10 20 "p1" after) ≡ false)
terminate_subject_ends_example = terminate_subject_ends host function_redis 10 20 "p1" started "s1"
