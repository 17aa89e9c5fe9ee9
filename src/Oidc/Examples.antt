-- ===== src/Oidc/Examples.antt =====
-- The provider's grants at concrete values, with texts that encode lists in place of JSON.
use campus_id.Shared.{
  String, ◌≡◌, ◌≢◌, ◌⊎◌, refl, true, false, none, some, List, [], ◌∷◌, arith, ◌==◌, ==_iff,
}
use campus_id.Shared.Redis.{exists}
use campus_id.Shared.Redis.Functions.{function_redis, empty}
use campus_id.Shared.Codec.{digits_of, number_of, number_of-digits_of}
use campus_id.Shared.Codec.Lists.{
  encode, decode, decode-encode, encode_option, first_of, first_of-encode_option,
}
use campus_id.Oidc.Errors.{
  ok, err, grant_reuse, oauth_error, invalid_grant, grant_invalid, grant_reuse_detected,
}
use campus_id.Oidc.Grants.SingleUse.{CodeBound, redeem_once}
use campus_id.Oidc.Grants.Replay.{redeem_replay}
use campus_id.Oidc.Grants.Families.{AllElsewhere, revoked_family_stays}
use campus_id.Oidc.Grants.Lifetimes.{Command, run, step}
use campus_id.Oidc.Grants.{
  AuthorizationCode, CodePayload, RefreshToken, RefreshPayload, Host, code_key, issue_code,
  redeem_code, revoke_family, is_family_revoked, issue_refresh_token, rotate_refresh_token,
  code_to_json, code_from_json, refresh_to_json, refresh_from_json,
}

text_differs : (s t : String) → (s == t) ≡ false → s ≢ t
text_differs s t h e = cc (h, (==_iff s t).1 e)

fields_of_code : CodePayload → List String
fields_of_code p =
    p.client_id
    ∷ p.redirect_uri
    ∷ p.code_challenge
    ∷ encode p.scopes
    ∷ p.subject
    ∷ p.sid
    ∷ p.family_id
    ∷ encode_option p.nonce
    ∷ encode_option p.time_text
    ∷ encode_option p.acr
    ∷ encode p.amr
    ∷ []

no_code : CodePayload
no_code = record {
  client_id = "";
  redirect_uri = "";
  code_challenge = "";
  scopes = [];
  subject = "";
  sid = "";
  family_id = "";
  nonce = none;
  time_text = none;
  acr = none;
  amr = [];
}

read_code : List String → CodePayload
read_code
      (client ∷ uri ∷ challenge ∷ scopes ∷ subject ∷ sid ∷ family ∷ nonce ∷ time ∷ acr ∷ amr ∷ []) =
    record {
      client_id = client;
      redirect_uri = uri;
      code_challenge = challenge;
      scopes = decode scopes;
      subject = subject;
      sid = sid;
      family_id = family;
      nonce = first_of (decode nonce);
      time_text = first_of (decode time);
      acr = first_of (decode acr);
      amr = decode amr;
    }
read_code _ = no_code

read_code-fields : (p : CodePayload) → read_code (decode (encode (fields_of_code p))) ≡ p
unfolding read_code fields_of_code
read_code-fields p = rw (
  decode-encode (fields_of_code p),
  decode-encode p.scopes,
  decode-encode p.amr,
  first_of-encode_option p.nonce,
  first_of-encode_option p.time_text,
  first_of-encode_option p.acr,
)

fields_of_refresh : RefreshPayload → List String
fields_of_refresh p =
    p.client_id
    ∷ encode p.scopes
    ∷ p.subject
    ∷ p.sid
    ∷ p.family_id
    ∷ digits_of p.generation
    ∷ p.issued_text
    ∷ []

no_refresh : RefreshPayload
no_refresh = record {
  client_id = "";
  scopes = [];
  subject = "";
  sid = "";
  family_id = "";
  generation = 0;
  issued_text = "";
}

read_refresh : List String → RefreshPayload
read_refresh (client ∷ scopes ∷ subject ∷ sid ∷ family ∷ generation ∷ issued ∷ []) = record {
  client_id = client;
  scopes = decode scopes;
  subject = subject;
  sid = sid;
  family_id = family;
  generation = number_of generation;
  issued_text = issued;
}
read_refresh _ = no_refresh

read_refresh-fields :
    (p : RefreshPayload) → read_refresh (decode (encode (fields_of_refresh p))) ≡ p
unfolding read_refresh fields_of_refresh
read_refresh-fields p =
    rw (
      decode-encode (fields_of_refresh p),
      decode-encode p.scopes,
      number_of-digits_of p.generation,
    )

abbrev host : Host
host = record {
  digest = λ s. s;
  isoformat = digits_of;
  fromisoformat = number_of;
  dumps_code = λ p. encode (fields_of_code p);
  loads_code = λ s. read_code (decode s);
  dumps_refresh = λ p. encode (fields_of_refresh p);
  loads_refresh = λ s. read_refresh (decode s);
  time_round_trip = number_of-digits_of;
  code_round_trip = read_code-fields;
  refresh_round_trip = read_refresh-fields;
}

abbrev grant : AuthorizationCode
grant = record {
  client_id = "portal";
  redirect_uri = "https://portal/cb";
  code_challenge = "challenge";
  scopes = "openid" ∷ [];
  subject = "ada";
  sid = "s1";
  family_id = "f1";
  nonce = some "n";
  auth_time = some 3;
  acr = none;
  amr = "pwd" ∷ [];
}

abbrev token : RefreshToken
token = record {
  client_id = "portal";
  scopes = "openid" ∷ [];
  subject = "ada";
  sid = "s1";
  family_id = "f1";
  generation = 2;
  issued_at = 5;
}

abbrev Store : Type 0
Store = function_redis.Store

-- The store after the code "c" is issued.
issued : Store
unfolding issue_code
issued = (issue_code host function_redis 60 120 grant "c" empty).0

redeem_issued :
    (redeem_code host function_redis 60 120 "c" "portal" "https://portal/cb" issued).1 ≡ ok grant
unfolding issued redeem_code issue_code code_to_json code_from_json fields_of_code read_code encode
    decode encode_option
redeem_issued = refl

record_bounded : CodeBound host function_redis 60 120 "c" issued
unfolding issued issue_code
record_bounded = omega arith

-- The store after the code is redeemed.
redeemed : Store
unfolding issued redeem_code
redeemed = (redeem_code host function_redis 60 120 "c" "portal" "https://portal/cb" issued).0

redeem_once_example :
    (redeem_code host function_redis 60 120 "c" "portal" "https://portal/cb" (
      run host function_redis 60 120
        (Command.wait 10 ∷ [])
        (redeem_code host function_redis 60 120 "c" "portal" "https://portal/cb" issued).0)).1
    ≢ ok grant
redeem_once_example =
    redeem_once host function_redis 60 120 "c" "portal" "https://portal/cb" issued grant
      record_bounded redeem_issued (Command.wait 10 ∷ []) (tt, tt) "portal" "https://portal/cb"
      grant

-- The code is presented by another client ten seconds after it was redeemed.
redeem_replay_example :
    let later = run host function_redis 60 120 (Command.wait 10 ∷ []) redeemed in
    let answer = redeem_code host function_redis 60 120 "c" "thief" "https://thief/cb" later in
    ((exists function_redis (code_key "c") later ≡ true)
      × (answer.1 ≡ err (grant_reuse invalid_grant grant_reuse_detected))
      × (is_family_revoked host function_redis 60 120 "f1" answer.0 ≡ true))
    ⊎ ((exists function_redis (code_key "c") later ≡ false)
        × (answer ≡ (later, err (oauth_error invalid_grant grant_invalid))))
unfolding redeemed
redeem_replay_example =
    redeem_replay host function_redis 60 120 "c" "portal" "https://portal/cb" issued grant
      record_bounded redeem_issued (Command.wait 10 ∷ []) (tt, tt) "thief" "https://thief/cb"

-- The record is still there then.
still_recorded :
    exists function_redis
      (code_key "c")
      (run host function_redis 60 120 (Command.wait 10 ∷ []) redeemed)
    ≡ true
unfolding redeemed issued redeem_code issue_code code_to_json code_from_json fields_of_code
    read_code encode decode encode_option run step
still_recorded = refl

-- A refresh token of another family, stored after the family "f0" is revoked.
later : List Command
later = Command.issue_refresh token "r" ∷ []

rotated :
    (rotate_refresh_token host function_redis 60 120 "r" "portal" 9 "r2" (
      run host function_redis 60 120 later (revoke_family host function_redis 60 120 "f0" empty))).1
    ≡ ok ("r2", record token { generation = 3; issued_at = 9 })
unfolding later run step rotate_refresh_token issue_refresh_token revoke_family refresh_to_json
    refresh_from_json fields_of_refresh read_refresh encode decode encode_option
rotated = refl

elsewhere : AllElsewhere host function_redis 60 120 "f0" later
unfolding later
elsewhere = ((λ e. text_differs "f1" "f0" refl e), tt)

revoked_family_stays_example : ◌≢◌ {A = String} "f1" "f0"
revoked_family_stays_example =
    revoked_family_stays host function_redis 60 120 "f0" empty (λ d. tt) later elsewhere "r"
      "portal" 9 "r2" "r2" (record token { generation = 3; issued_at = 9 }) rotated
