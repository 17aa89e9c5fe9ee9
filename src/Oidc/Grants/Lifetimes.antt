-- ===== src/Oidc/Grants/Lifetimes.antt =====
-- Sequences of operations on the grant store of campusid/oidc/grants.py, with time passing between
-- them, and how long the records that they write can live.
use campus_id.Shared.{
  ℕ, ◌≤◌, String, ◌≡◌, refl, inl, inr, Bool, true, false, Option, none, some, List, [], ◌∷◌, arith,
  ltb, ◌==◌, Bool-cases,
}
use campus_id.Shared.Redis.{Redis, lapse, set_nx, value_of}
use campus_id.Oidc.Grants.{
  AuthorizationCode, RefreshToken, Host, code_spent_key, refresh_key, refresh_spent_key,
  session_families_key, code_seconds, refresh_seconds, issue_code, revoke_family, redeem_marked,
  redeem_found, redeem_code, issue_refresh_token, rotate_marked, rotate_found, rotate_refresh_token,
  revoke_all, revoke_session_families, code_from_json, refresh_from_json, is_family_revoked,
  successor,
}

-- What can happen to the store: the operations, with the fresh tokens that they draw, and time.
pub data Command : Type 0 where
  issue : AuthorizationCode → String → Command
  redeem : String → String → String → Command
  issue_refresh : RefreshToken → String → Command
  rotate : String → String → ℕ → String → Command
  revoke : String → Command
  end_session : String → Command
  wait : ℕ → Command

-- A lifetime of at most so many seconds.
abbrev pub AtMost : ℕ → Option (String × ℕ) → Type 0
AtMost n none = Unit
AtMost n (some (v, left)) = left ≤ n

pub AtMost-lapse : (n k : ℕ) (o : Option (String × ℕ)) → AtMost n o → AtMost n (lapse k o)
AtMost-lapse n k none h = tt
AtMost-lapse n k (some (v, left)) h = elim (Bool-cases (ltb k left)) [
  | inl e ↦ rw e (omega arith)
  | inr e ↦ rw e tt
]

module _ (host : Host) (redis : Redis) (code_ttl refresh_ttl : ℕ) where
  open redis use {Store, text_at}

  unfoldable pub step : Command → Store → Store
  step (issue grant code) s = (issue_code host redis code_ttl refresh_ttl grant code s).0
  step (redeem code client uri) s =
      (redeem_code host redis code_ttl refresh_ttl code client uri s).0
  step (issue_refresh token fresh) s =
      (issue_refresh_token host redis code_ttl refresh_ttl token fresh s).0
  step (rotate token client now fresh) s =
      (rotate_refresh_token host redis code_ttl refresh_ttl token client now fresh s).0
  step (revoke family) s = revoke_family host redis code_ttl refresh_ttl family s
  step (end_session sid) s = (revoke_session_families host redis code_ttl refresh_ttl sid s).0
  step (wait n) s = redis.elapse n s

  unfoldable pub run : List Command → Store → Store
  run [] s = s
  run (c ∷ cs) s = run cs (step c s)

  -- A property that the writes behind the operations keep. A refresh token is stored only under a
  -- condition on its family, which `may_store` states.
  pub record Keeps (P : Store → Type 0) (may_store : String → Store → Type 0) : Type 0 where
    pub revoking :
        (family : String) (s : Store)
        → P s
        → P (revoke_family host redis code_ttl refresh_ttl family s)
    pub marking_code :
        (digest : String) (s : Store)
        → P s
        → P
            (set_nx redis
              (code_spent_key digest)
              "1"
              (code_seconds host redis code_ttl refresh_ttl)
              s).0
    pub storing :
        (digest : String) (token : RefreshToken) (fresh : String) (s : Store)
        → may_store token.family_id s
        → P s
        → P
            (issue_refresh_token host redis code_ttl refresh_ttl token fresh
              (set_nx redis
                (refresh_spent_key digest)
                "1"
                (refresh_seconds host redis code_ttl refresh_ttl)
                s).0).0
    pub marking_refresh :
        (digest : String) (s : Store)
        → P s
        → P
            (set_nx redis
              (refresh_spent_key digest)
              "1"
              (refresh_seconds host redis code_ttl refresh_ttl)
              s).0
    pub forgetting :
        (sid : String) (s : Store) → P s → P (redis.delete (session_families_key sid) s)
    pub elapsing : (n : ℕ) (s : Store) → P s → P (redis.elapse n s)

  module _ {P : Store → Type 0} {may_store : String → Store → Type 0}
      (keeps : Keeps P may_store) where
    redeem_marked-keeps :
        (grant : AuthorizationCode) (client uri : String) (s : Store) (b : Bool)
        → P s
        → P (redeem_marked host redis code_ttl refresh_ttl grant client uri (s, b)).0
    unfolding redeem_marked
    redeem_marked-keeps grant client uri s false h = keeps.revoking grant.family_id s h
    redeem_marked-keeps grant client uri s true h = elim (Bool-cases (grant.client_id == client)) [
      | inr other ↦ rw other (keeps.revoking grant.family_id s h)
      | inl mine ↦ elim (Bool-cases (grant.redirect_uri == uri)) [
        | inl e ↦ rw (mine, e) h
        | inr e ↦ rw (mine, e) h
      ]
    ]

    redeem_found-keeps :
        (digest client uri : String) (o : Option String) (s : Store)
        → P s
        → P (redeem_found host redis code_ttl refresh_ttl digest client uri o s).0
    unfolding redeem_found
    redeem_found-keeps digest client uri none s h = h
    redeem_found-keeps digest client uri (some raw) s h =
        redeem_marked-keeps (code_from_json host raw) client uri _ _ (keeps.marking_code digest s h)

    pub redeem-keeps :
        (code client uri : String) (s : Store)
        → P s
        → P (redeem_code host redis code_ttl refresh_ttl code client uri s).0
    unfolding redeem_code
    redeem-keeps code client uri s h = redeem_found-keeps _ client uri _ s h

    revoke_all-keeps :
        (families : List String) (s : Store)
        → P s
        → P (revoke_all host redis code_ttl refresh_ttl families s)
    unfolding revoke_all
    revoke_all-keeps [] s h = h
    revoke_all-keeps (f ∷ fs) s h = revoke_all-keeps fs _ (keeps.revoking f s h)

    pub end_session-keeps :
        (sid : String) (s : Store)
        → P s
        → P (revoke_session_families host redis code_ttl refresh_ttl sid s).0
    unfolding revoke_session_families
    end_session-keeps sid s h =
        keeps.forgetting sid _
          (revoke_all-keeps (redis.members_at s (session_families_key sid)) s h)

    -- Both the answers of `SET NX` keep the property, and the successor is stored where it may be.
    rotate_marked-keeps :
        (token : RefreshToken) (client : String) (now : ℕ) (fresh : String) (s : Store) (b : Bool)
        → P s
        → P
            (issue_refresh_token host redis code_ttl refresh_ttl
              (successor host redis code_ttl refresh_ttl token now)
              fresh
              s).0
        → P (rotate_marked host redis code_ttl refresh_ttl token client now fresh (s, b)).0
    unfolding rotate_marked
    rotate_marked-keeps token client now fresh s false h k = keeps.revoking token.family_id s h
    rotate_marked-keeps token client now fresh s true h k =
        elim (Bool-cases (token.client_id == client)) [
          | inr other ↦ rw other (keeps.revoking token.family_id s h)
          | inl mine ↦ rw mine k
        ]

    rotate_found-keeps :
        (digest client : String) (now : ℕ) (fresh : String) (o : Option String) (s : Store)
        → ((raw : String)
            → o ≡ some raw
            → is_family_revoked host redis code_ttl refresh_ttl
                (refresh_from_json host raw).family_id
                s
              ≡ false
            → may_store (refresh_from_json host raw).family_id s)
        → P s
        → P (rotate_found host redis code_ttl refresh_ttl digest client now fresh o s).0
    unfolding rotate_found
    rotate_found-keeps digest client now fresh none s allowed h = h
    rotate_found-keeps digest client now fresh (some raw) s allowed h =
        elim (Bool-cases (
          is_family_revoked host redis code_ttl refresh_ttl (refresh_from_json host raw).family_id
            s)) [
              | inl dead ↦ rw dead h
              | inr live ↦ rw live (
                  rotate_marked-keeps (refresh_from_json host raw) client now fresh _ _
                    (keeps.marking_refresh digest s h)
                    (keeps.storing digest
                      (successor host redis code_ttl refresh_ttl (refresh_from_json host raw) now)
                      fresh s (allowed raw refl live) h))
            ]

    pub rotate-keeps :
        (token client : String) (now : ℕ) (fresh : String) (s : Store)
        → ((raw : String)
            → value_of (text_at s (refresh_key (host.digest token))) ≡ some raw
            → is_family_revoked host redis code_ttl refresh_ttl
                (refresh_from_json host raw).family_id
                s
              ≡ false
            → may_store (refresh_from_json host raw).family_id s)
        → P s
        → P (rotate_refresh_token host redis code_ttl refresh_ttl token client now fresh s).0
    unfolding rotate_refresh_token
    rotate-keeps token client now fresh s allowed h =
        rotate_found-keeps (host.digest token) client now fresh _ s allowed h
