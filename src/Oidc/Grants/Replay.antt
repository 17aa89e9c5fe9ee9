-- ===== src/Oidc/Grants/Replay.antt =====
-- An authorization code of campusid/oidc/grants.py that is presented again after it was redeemed.
use campus_id.Shared.{
  ℕ, String, ◌≡◌, ◌≢◌, refl, ◌∙◌, ◌⊎◌, inl, inr, Bool-cases, Option-cases, true, false, Option,
  none, some, List, [], ◌∷◌, ltb, ◌==◌, ==_iff, ==_self,
}
use campus_id.Shared.Redis.{Redis, Key, lapse, value_of, exists, set_nx, get}
use campus_id.Oidc.Errors.{
  ok, err, grant_reuse, oauth_error, grant_invalid, grant_reuse_detected, invalid_grant,
}
use campus_id.Oidc.Grants.{
  AuthorizationCode, RefreshToken, Host, code_key, code_spent_key, session_families_key, issue_code,
  revoke_family, redeem_marked, redeem_found, redeem_code, issue_refresh_token, code_from_json,
  is_family_revoked,
}
use campus_id.Oidc.Grants.Lifetimes.{
  Command, issue, redeem, issue_refresh, rotate, revoke, end_session, wait, step, run, Keeps,
  redeem-keeps, rotate-keeps, end_session-keeps,
}
use campus_id.Oidc.Grants.SingleUse.{
  CodeBound, Spent, IsOther, AllOther, redeem-Spent, redeem_bound, run-Spent,
}

-- An entry that holds this text, if it is there at all.
abbrev pub Holds : String → Option (String × ℕ) → Type 0
Holds raw none = Unit
Holds raw (some (v, left)) = v ≡ raw

Holds-lapse : (raw : String) (n : ℕ) (o : Option (String × ℕ)) → Holds raw o → Holds raw (lapse n o)
Holds-lapse raw n none h = tt
Holds-lapse raw n (some (v, left)) h = elim (Bool-cases (ltb n left)) [
  | inl e ↦ rw e h
  | inr e ↦ rw e tt
]

Holds-value_of : (raw : String) (o : Option (String × ℕ)) → value_of o ≡ some raw → Holds raw o
Holds-value_of raw none e = tt
Holds-value_of raw (some (v, left)) e = cc

module _ (host : Host) (redis : Redis) (code_ttl refresh_ttl : ℕ) (digest raw : String) where
  open redis use {Store, text_at}

  -- The record of the code is as it was written, if it is still there.
  abbrev pub Recorded : Store → Type 0
  Recorded s = Holds raw (text_at s (code_key digest))

  Recorded-same :
      {s t : Store}
      → text_at t (code_key digest) ≡ text_at s (code_key digest)
      → Recorded s
      → Recorded t
  Recorded-same p h = rw p h

  -- A text under another prefix.
  aside :
      (prefix name v : String) (n : ℕ) (s : Store)
      → (prefix == "oidc:code:") ≡ false
      → Recorded s
      → Recorded (redis.set (record { prefix = prefix; name = name }) v n s)
  aside prefix name v n s p h =
      let k : Key = record { prefix = prefix; name = name } in
      Recorded-same (redis.text-set k (code_key digest) v n s ∙ rw p) h

  marking-Recorded :
      (prefix name : String) (n : ℕ) (s : Store)
      → (prefix == "oidc:code:") ≡ false
      → Recorded s
      → Recorded (set_nx redis (record { prefix = prefix; name = name }) "1" n s).0
  marking-Recorded prefix name n s p h =
      let k : Key = record { prefix = prefix; name = name } in
      elim (Bool-cases (exists redis k s)) [
        | inl e ↦ rw e h
        | inr e ↦ rw e (aside prefix name "1" n s p h)
      ]

  revoking-Recorded :
      (family : String) (s : Store)
      → Recorded s
      → Recorded (revoke_family host redis code_ttl refresh_ttl family s)
  unfolding revoke_family
  revoking-Recorded family s h = aside "oidc:family:revoked:" family "1" _ s refl h

  storing-Recorded :
      (token : RefreshToken) (fresh : String) (s : Store)
      → Recorded s
      → Recorded (issue_refresh_token host redis code_ttl refresh_ttl token fresh s).0
  unfolding issue_refresh_token
  storing-Recorded token fresh s h = aside "oidc:refresh:" (host.digest fresh) _ _ s refl h

  Keeps-Recorded : Keeps host redis code_ttl refresh_ttl Recorded (λ f s. Unit)
  Keeps-Recorded = record {
    revoking = revoking-Recorded;
    marking_code = λ d s h. marking-Recorded "oidc:code:spent:" d _ s refl h;
    storing = λ d token fresh s u h.
        storing-Recorded token fresh _ (marking-Recorded "oidc:refresh:spent:" d _ s refl h);
    marking_refresh = λ d s h. marking-Recorded "oidc:refresh:spent:" d _ s refl h;
    forgetting = λ sid s h.
        Recorded-same (redis.text-delete (session_families_key sid) (code_key digest) s) h;
    elapsing = λ n s h.
        rw (redis.text-elapse n (code_key digest) s)
          (Holds-lapse raw n (text_at s (code_key digest)) h);
  }

  issue-Recorded :
      (grant : AuthorizationCode) (code : String) (s : Store)
      → host.digest code ≢ digest
      → Recorded s
      → Recorded (issue_code host redis code_ttl refresh_ttl grant code s).0
  unfolding issue_code
  issue-Recorded grant code s other h = elim (Bool-cases (host.digest code == digest)) [
    | inl e ↦ absurd (other ((==_iff (host.digest code) digest).0 e))
    | inr e ↦
        Recorded-same
          (redis.text-expire _ _ _ _
            ∙ redis.text-sadd _ _ _ _
            ∙ redis.text-set (code_key (host.digest code)) (code_key digest) _ _ s
            ∙ rw e)
          h
  ]

  step-Recorded :
      (c : Command) (s : Store)
      → IsOther host redis code_ttl refresh_ttl digest c
      → Recorded s
      → Recorded (step host redis code_ttl refresh_ttl c s)
  unfolding step
  step-Recorded (issue grant code) s o h = issue-Recorded grant code s o h
  step-Recorded (redeem code client uri) s o h =
      redeem-keeps host redis code_ttl refresh_ttl Keeps-Recorded code client uri s h
  step-Recorded (issue_refresh token fresh) s o h = storing-Recorded token fresh s h
  step-Recorded (rotate token client now fresh) s o h =
      rotate-keeps host redis code_ttl refresh_ttl Keeps-Recorded token client now fresh s
        (λ raw p q. tt) h
  step-Recorded (revoke family) s o h = revoking-Recorded family s h
  step-Recorded (end_session sid) s o h =
      end_session-keeps host redis code_ttl refresh_ttl Keeps-Recorded sid s h
  step-Recorded (wait n) s o h = Keeps-Recorded.elapsing n s h

  run-Recorded :
      (cs : List Command) (s : Store)
      → AllOther host redis code_ttl refresh_ttl digest cs
      → Recorded s
      → Recorded (run host redis code_ttl refresh_ttl cs s)
  unfolding run
  run-Recorded [] s o h = h
  run-Recorded (c ∷ cs) s o h =
      run-Recorded cs (step host redis code_ttl refresh_ttl c s) o.1 (step-Recorded c s o.0 h)

  -- With the code spent and its record as it was: what a presentation answers.
  replayed :
      (client uri : String) (s : Store)
      → Spent host redis code_ttl refresh_ttl digest s
      → Recorded s
      → let answer =
          redeem_found host redis code_ttl refresh_ttl digest client uri
            (get redis (code_key digest) s)
            s in
        ((exists redis (code_key digest) s ≡ true)
          × (answer.1 ≡ err (grant_reuse invalid_grant grant_reuse_detected))
          × (is_family_revoked host redis code_ttl refresh_ttl
                (code_from_json host raw).family_id
                answer.0
              ≡ true))
        ⊎ ((exists redis (code_key digest) s ≡ false)
            × (answer ≡ (s, err (oauth_error invalid_grant grant_invalid))))
  unfolding redeem_found redeem_marked is_family_revoked revoke_family
  replayed client uri s spent h = elim (Option-cases (text_at s (code_key digest))) [
    | inl gone ↦ inr (rw gone (refl, refl))
    | inr ((v, left), there_is) ↦ elim (Option-cases (text_at s (code_spent_key digest))) [
      | inl unmarked ↦ absurd (rw (there_is, unmarked) at spent.covered)
      | inr ((w, t), marked) ↦
          let same : v ≡ raw = rw there_is at h in
          inl (
            rw (there_is, marked, same)
              (
                refl,
                refl,
                rw (redis.text-set _ _ _ _ _) (rw (==_self (code_from_json host raw).family_id)),
              ))
    ]
  ]

module _ (host : Host) (redis : Redis) (code_ttl refresh_ttl : ℕ) where
  open redis use {Store}

  -- A code that was redeemed and is presented again, by whichever client, after any further operations
  -- on the store and any time: while the record of the code is still there, the presentation is
  -- reported as reuse, and the family of the grant that was redeemed is revoked after it; without the
  -- record it is refused as an invalid grant and changes nothing. No later code has the same digest,
  -- and the record of the code lived no longer than codes may when it was redeemed.
  pub redeem_replay :
      (code client uri : String) (s : Store) (g : AuthorizationCode)
      → CodeBound host redis code_ttl refresh_ttl (host.digest code) s
      → (redeem_code host redis code_ttl refresh_ttl code client uri s).1 ≡ ok g
      → (cs : List Command) → AllOther host redis code_ttl refresh_ttl (host.digest code) cs
      → (client' uri' : String)
      → let later =
          run host redis code_ttl refresh_ttl cs
            (redeem_code host redis code_ttl refresh_ttl code client uri s).0 in
        let answer = redeem_code host redis code_ttl refresh_ttl code client' uri' later in
        ((exists redis (code_key (host.digest code)) later ≡ true)
          × (answer.1 ≡ err (grant_reuse invalid_grant grant_reuse_detected))
          × (is_family_revoked host redis code_ttl refresh_ttl g.family_id answer.0 ≡ true))
        ⊎ ((exists redis (code_key (host.digest code)) later ≡ false)
            × (answer ≡ (later, err (oauth_error invalid_grant grant_invalid))))
  unfolding redeem_code
  redeem_replay code client uri s g b won cs others client' uri' =
      let digest = host.digest code in
      let (mine, address, (raw, stored, read)) =
        redeem_bound host redis code_ttl refresh_ttl code client uri s g won in
      let spent = redeem-Spent host redis code_ttl refresh_ttl code client uri s g b won in
      let recorded =
        redeem-keeps host redis code_ttl refresh_ttl
          (Keeps-Recorded host redis code_ttl refresh_ttl digest raw) code client uri s
          (Holds-value_of raw (redis.text_at s (code_key digest)) stored) in
      rw read (
        replayed host redis code_ttl refresh_ttl digest raw client' uri' _
          (run-Spent host redis code_ttl refresh_ttl digest cs _ others spent)
          (run-Recorded host redis code_ttl refresh_ttl digest raw cs _ others recorded))
