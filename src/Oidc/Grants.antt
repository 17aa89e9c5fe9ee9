-- ===== src/Oidc/Grants.antt =====
-- campusid/oidc/grants.py. SHA-256, JSON and ISO 8601 are the record `Host`; Redis is the interface
-- of Shared/Redis. A moment is its number of seconds. A fresh token of `_new_token` is an argument.
-- Each operation runs without another between its commands, and `SET NX` is atomic.
pub mod Lifetimes
pub mod SingleUse
pub mod Replay
pub mod Families
use campus_id.Shared.{
  ℕ, ◌+◌, String, ◌≡◌, refl, ap, Bool, true, false, not, Option, none, some, List, [], ◌∷◌, ◌==◌,
  if◌then◌else◌, max,
}
use campus_id.Shared.Redis.{Redis, Key, get, exists, set_nx}
use campus_id.Oidc.Errors.{
  Refusal, Outcome, ok, err, oauth_error, grant_reuse, grant_invalid, grant_revoked,
  grant_reuse_detected, invalid_grant,
}

pub record AuthorizationCode : Type 0 where
  pub client_id : String
  pub redirect_uri : String
  pub code_challenge : String
  pub scopes : List String
  pub subject : String
  pub sid : String
  pub family_id : String
  pub nonce : Option String
  pub auth_time : Option ℕ
  pub acr : Option String
  pub amr : List String

-- What `to_json` hands to `json.dumps`: the time as a text.
pub record CodePayload : Type 0 where
  pub client_id : String
  pub redirect_uri : String
  pub code_challenge : String
  pub scopes : List String
  pub subject : String
  pub sid : String
  pub family_id : String
  pub nonce : Option String
  pub time_text : Option String
  pub acr : Option String
  pub amr : List String

pub record RefreshToken : Type 0 where
  pub client_id : String
  pub scopes : List String
  pub subject : String
  pub sid : String
  pub family_id : String
  pub generation : ℕ
  pub issued_at : ℕ

pub record RefreshPayload : Type 0 where
  pub client_id : String
  pub scopes : List String
  pub subject : String
  pub sid : String
  pub family_id : String
  pub generation : ℕ
  pub issued_text : String

pub record Host : Type 0 where
  pub digest : String → String
  pub isoformat : ℕ → String
  pub fromisoformat : String → ℕ
  pub dumps_code : CodePayload → String
  pub loads_code : String → CodePayload
  pub dumps_refresh : RefreshPayload → String
  pub loads_refresh : String → RefreshPayload
  pub time_round_trip : (t : ℕ) → fromisoformat (isoformat t) ≡ t
  pub code_round_trip : (p : CodePayload) → loads_code (dumps_code p) ≡ p
  pub refresh_round_trip : (p : RefreshPayload) → loads_refresh (dumps_refresh p) ≡ p

abbrev pub code_key : String → Key
code_key digest = record { prefix = "oidc:code:"; name = digest }

abbrev pub code_spent_key : String → Key
code_spent_key digest = record { prefix = "oidc:code:spent:"; name = digest }

abbrev pub refresh_key : String → Key
refresh_key digest = record { prefix = "oidc:refresh:"; name = digest }

abbrev pub refresh_spent_key : String → Key
refresh_spent_key digest = record { prefix = "oidc:refresh:spent:"; name = digest }

abbrev pub family_revoked_key : String → Key
family_revoked_key family = record { prefix = "oidc:family:revoked:"; name = family }

abbrev pub session_families_key : String → Key
session_families_key sid = record { prefix = "oidc:session-families:"; name = sid }

abbrev pub map_time {ℓ κ} : {A : Type ℓ} {B : Type κ} → (A → B) → Option A → Option B
map_time f none = none
map_time f (some t) = some (f t)

map_time_inverse {ℓ κ} :
    {A : Type ℓ} {B : Type κ} (f : A → B) (g : B → A)
    → ((a : A) → g (f a) ≡ a)
    → (o : Option A) → map_time g (map_time f o) ≡ o
map_time_inverse f g h none = refl
map_time_inverse f g h (some a) = ap some (h a)

module _ (host : Host) where
  -- `AuthorizationCode.to_json`
  unfoldable pub code_to_json : AuthorizationCode → String
  code_to_json grant = host.dumps_code (record {
    client_id = grant.client_id;
    redirect_uri = grant.redirect_uri;
    code_challenge = grant.code_challenge;
    scopes = grant.scopes;
    subject = grant.subject;
    sid = grant.sid;
    family_id = grant.family_id;
    nonce = grant.nonce;
    time_text = map_time host.isoformat grant.auth_time;
    acr = grant.acr;
    amr = grant.amr;
  })

  unfoldable pub code_from_json : String → AuthorizationCode
  code_from_json raw =
      let payload = host.loads_code raw in
      record {
        client_id = payload.client_id;
        redirect_uri = payload.redirect_uri;
        code_challenge = payload.code_challenge;
        scopes = payload.scopes;
        subject = payload.subject;
        sid = payload.sid;
        family_id = payload.family_id;
        nonce = payload.nonce;
        auth_time = map_time host.fromisoformat payload.time_text;
        acr = payload.acr;
        amr = payload.amr;
      }

  unfoldable pub refresh_to_json : RefreshToken → String
  refresh_to_json token = host.dumps_refresh (record {
    client_id = token.client_id;
    scopes = token.scopes;
    subject = token.subject;
    sid = token.sid;
    family_id = token.family_id;
    generation = token.generation;
    issued_text = host.isoformat token.issued_at;
  })

  unfoldable pub refresh_from_json : String → RefreshToken
  refresh_from_json raw =
      let payload = host.loads_refresh raw in
      record {
        client_id = payload.client_id;
        scopes = payload.scopes;
        subject = payload.subject;
        sid = payload.sid;
        family_id = payload.family_id;
        generation = payload.generation;
        issued_at = host.fromisoformat payload.issued_text;
      }

  -- An authorization code's grant is read back as it was written.
  pub code_from_json-code_to_json :
      (grant : AuthorizationCode) → code_from_json (code_to_json grant) ≡ grant
  unfolding code_from_json code_to_json
  code_from_json-code_to_json grant = rw host.code_round_trip (
      ap (λ t. record grant { auth_time = t })
        (map_time_inverse host.isoformat host.fromisoformat host.time_round_trip grant.auth_time))

  -- A refresh token's record is read back as it was written.
  pub refresh_from_json-refresh_to_json :
      (token : RefreshToken) → refresh_from_json (refresh_to_json token) ≡ token
  unfolding refresh_from_json refresh_to_json
  refresh_from_json-refresh_to_json token = rw (host.refresh_round_trip, host.time_round_trip)

-- The store, with its times to live in whole seconds (`_seconds` of `code_ttl` and `refresh_ttl`).
module _ (host : Host) (redis : Redis) (code_ttl refresh_ttl : ℕ) where
  open redis use {Store, members_at, set, delete, sadd, expire}

  -- `_seconds(self._code_ttl)` and `_seconds(self._refresh_ttl)`
  abbrev pub code_seconds : ℕ
  code_seconds = max code_ttl 1

  abbrev pub refresh_seconds : ℕ
  refresh_seconds = max refresh_ttl 1

  -- `issue_code`, for the fresh token `code`.
  unfoldable pub issue_code : AuthorizationCode → String → Store → Store × String
  issue_code grant code s =
      let stored = set (code_key (host.digest code)) (code_to_json host grant) code_seconds s in
      let listed = sadd (session_families_key grant.sid) grant.family_id stored in
      (expire (session_families_key grant.sid) refresh_seconds listed, code)

  unfoldable pub revoke_family : String → Store → Store
  revoke_family family = set (family_revoked_key family) "1" refresh_seconds

  unfoldable pub is_family_revoked : String → Store → Bool
  is_family_revoked family s = exists redis (family_revoked_key family) s

  -- `redeem_code` from the answer of `SET NX` on.
  redeem_marked :
      AuthorizationCode → String → String → Store × Bool → Store × Outcome AuthorizationCode
  unfolding revoke_family
  redeem_marked grant client_id redirect_uri (s, false) =
      (revoke_family grant.family_id s, err (grant_reuse invalid_grant grant_reuse_detected))
  redeem_marked grant client_id redirect_uri (s, true) =
      if not (grant.client_id == client_id)
      then (revoke_family grant.family_id s, err (oauth_error invalid_grant grant_invalid))
      else if not (grant.redirect_uri == redirect_uri)
      then (s, err (oauth_error invalid_grant grant_invalid))
      else (s, ok grant)

  redeem_found :
      String → String → String → Option String → Store → Store × Outcome AuthorizationCode
  unfolding redeem_marked
  redeem_found digest client_id redirect_uri none s =
      (s, err (oauth_error invalid_grant grant_invalid))
  redeem_found digest client_id redirect_uri (some raw) s =
      redeem_marked (code_from_json host raw) client_id redirect_uri
        (set_nx redis (code_spent_key digest) "1" code_seconds s)

  unfoldable pub redeem_code : String → String → String → Store → Store × Outcome AuthorizationCode
  unfolding redeem_found
  redeem_code code client_id redirect_uri s =
      redeem_found (host.digest code) client_id redirect_uri
        (get redis (code_key (host.digest code)) s) s

  -- `issue_refresh_token`, for the fresh token.
  unfoldable pub issue_refresh_token : RefreshToken → String → Store → Store × String
  issue_refresh_token token fresh s =
      (set (refresh_key (host.digest fresh)) (refresh_to_json host token) refresh_seconds s, fresh)

  abbrev pub successor : RefreshToken → ℕ → RefreshToken
  successor token now = record token { generation = token.generation + 1; issued_at = now }

  abbrev returning : RefreshToken → Store × String → Store × Outcome (String × RefreshToken)
  returning token (s, fresh) = (s, ok (fresh, token))

  rotate_marked :
      RefreshToken → String → ℕ → String → Store × Bool → Store × Outcome (String × RefreshToken)
  unfolding revoke_family issue_refresh_token
  rotate_marked token client_id now fresh (s, false) =
      (revoke_family token.family_id s, err (grant_reuse invalid_grant grant_reuse_detected))
  rotate_marked token client_id now fresh (s, true) =
      if not (token.client_id == client_id)
      then (revoke_family token.family_id s, err (oauth_error invalid_grant grant_invalid))
      else returning (successor token now) (issue_refresh_token (successor token now) fresh s)

  rotate_found :
      String → String → ℕ → String → Option String → Store → Store × Outcome (String × RefreshToken)
  unfolding rotate_marked is_family_revoked
  rotate_found digest client_id now fresh none s =
      (s, err (oauth_error invalid_grant grant_invalid))
  rotate_found digest client_id now fresh (some raw) s =
      let token = refresh_from_json host raw in
      if is_family_revoked token.family_id s
      then (s, err (oauth_error invalid_grant grant_revoked))
      else rotate_marked token client_id now fresh
          (set_nx redis (refresh_spent_key digest) "1" refresh_seconds s)

  -- `rotate_refresh_token`, for the fresh token of the successor.
  unfoldable pub rotate_refresh_token :
      String → String → ℕ → String → Store → Store × Outcome (String × RefreshToken)
  unfolding rotate_found
  rotate_refresh_token token client_id now fresh s =
      rotate_found (host.digest token) client_id now fresh
        (get redis (refresh_key (host.digest token)) s) s

  unfoldable pub describe_refresh_token : String → Store → Option RefreshToken
  describe_refresh_token token s =
      map_time (refresh_from_json host) (get redis (refresh_key (host.digest token)) s)

  unfoldable pub revoke_all : List String → Store → Store
  unfolding revoke_family
  revoke_all [] s = s
  revoke_all (family ∷ families) s = revoke_all families (revoke_family family s)

  unfoldable pub revoke_session_families : String → Store → Store × List String
  unfolding revoke_all
  revoke_session_families sid s =
      let families = members_at s (session_families_key sid) in
      (delete (session_families_key sid) (revoke_all families s), families)
