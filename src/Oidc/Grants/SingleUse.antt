-- ===== src/Oidc/Grants/SingleUse.antt =====
-- An authorization code of campusid/oidc/grants.py is redeemed at most once.
use campus_id.Shared.{
  ℕ, ◌≤◌, String, ◌≡◌, ◌≢◌, refl, ◌∙◌, ◌⊎◌, inl, inr, Bool, true, false, Option, none, some, List,
  [], ◌∷◌, arith, ltb, ◌==◌, ==_iff, Bool-cases, Option-cases,
}
use campus_id.Shared.Redis.{Redis, Key, lapse, exists, set_nx, get}
use campus_id.Oidc.Errors.{Outcome, ok}
use campus_id.Oidc.Grants.{
  AuthorizationCode, RefreshToken, Host, code_key, code_spent_key, refresh_spent_key,
  family_revoked_key, session_families_key, code_seconds, issue_code, revoke_family, redeem_marked,
  redeem_found, redeem_code, issue_refresh_token, code_from_json,
}
use campus_id.Oidc.Grants.Lifetimes.{
  Command, issue, redeem, issue_refresh, rotate, revoke, end_session, wait, AtMost, AtMost-lapse,
  step, run, Keeps, redeem-keeps, rotate-keeps, end_session-keeps,
}

-- The second entry, if the first is there, is there and outlives it.
abbrev pub Covers : Option (String × ℕ) → Option (String × ℕ) → Type 0
Covers none m = Unit
Covers (some (v, left)) none = ⊥
Covers (some (v, left)) (some (w, t)) = left ≤ t

pub Covers-lapse : (n : ℕ) (o m : Option (String × ℕ)) → Covers o m → Covers (lapse n o) (lapse n m)
Covers-lapse n none m h = tt
Covers-lapse n (some (v, left)) none h = absurd h
Covers-lapse n (some (v, left)) (some (w, t)) h = elim (Bool-cases (ltb n left)) [
  | inr e ↦ rw e tt
  | inl e ↦ let f : ltb n t ≡ true = ground arith in rw (e, f) (omega arith)
]

module _ (host : Host) (redis : Redis) (code_ttl refresh_ttl : ℕ) (digest : String) where
  open redis use {Store, text_at}

  abbrev seconds : ℕ
  seconds = code_seconds host redis code_ttl refresh_ttl

  -- A record of the code lives no longer than a code may.
  abbrev pub CodeBound : Store → Type 0
  CodeBound s = AtMost seconds (text_at s (code_key digest))

  -- The code's record is gone, or its spent marker is there and outlives it.
  pub record Spent (s : Store) : Type 0 where
    pub bounded : CodeBound s
    pub covered : Covers (text_at s (code_key digest)) (text_at s (code_spent_key digest))

  -- A write that leaves the code's two keys alone.
  Spent-same :
      {s t : Store}
      → text_at t (code_key digest) ≡ text_at s (code_key digest)
      → text_at t (code_spent_key digest) ≡ text_at s (code_spent_key digest)
      → Spent s
      → Spent t
  Spent-same p q h = record { bounded = rw p h.bounded; covered = rw (p, q) h.covered }

  revoking-Spent :
      (family : String) (s : Store)
      → Spent s
      → Spent (revoke_family host redis code_ttl refresh_ttl family s)
  unfolding revoke_family
  revoking-Spent family s h =
      Spent-same (redis.text-set (family_revoked_key family) (code_key digest) "1" _ s)
        (redis.text-set (family_revoked_key family) (code_spent_key digest) "1" _ s) h

  Covers-AtMost :
      (n : ℕ) (v : String) (o : Option (String × ℕ)) → AtMost n o → Covers o (some (v, n))
  Covers-AtMost n v none h = tt
  Covers-AtMost n v (some (w, left)) h = h

  -- A marker that is set covers the record of its own code, and leaves another code's marker alone.
  mark_covers :
      (other : String) (s : Store)
      → CodeBound s
      → (Spent s ⊎ (other ≡ digest))
      → Spent (redis.set (code_spent_key other) "1" seconds s)
  mark_covers other s b c =
      let kept : text_at (redis.set (code_spent_key other) "1" seconds s) (code_key digest)
          ≡ text_at s (code_key digest) =
        redis.text-set (code_spent_key other) (code_key digest) "1" seconds s in
      let marker = redis.text-set (code_spent_key other) (code_spent_key digest) "1" seconds s in
      elim (Bool-cases (other == digest)) [
        | inl e ↦ record {
          bounded = rw kept b;
          covered =
              rw (kept, marker, e) (Covers-AtMost seconds "1" (text_at s (code_key digest)) b);
        }
        | inr e ↦ elim c [
          | inr p ↦ cc (e, (==_iff other digest).1 p)
          | inl h ↦ record { bounded = rw kept b; covered = rw (kept, marker, e) h.covered }
        ]
      ]

  marking-Spent :
      (other : String) (s : Store)
      → Spent s
      → Spent (set_nx redis (code_spent_key other) "1" seconds s).0
  marking-Spent other s h = elim (Bool-cases (exists redis (code_spent_key other) s)) [
    | inl e ↦ rw e h
    | inr e ↦ rw e (mark_covers other s h.bounded (inl h))
  ]

  -- Refresh tokens and their markers are stored under other keys.
  aside :
      (prefix name v : String) (n : ℕ) (s : Store)
      → (prefix == "oidc:code:") ≡ false
      → (prefix == "oidc:code:spent:") ≡ false
      → Spent s
      → Spent (redis.set (record { prefix = prefix; name = name }) v n s)
  aside prefix name v n s p q h =
      let k : Key = record { prefix = prefix; name = name } in
      Spent-same (redis.text-set k (code_key digest) v n s ∙ rw p)
        (redis.text-set k (code_spent_key digest) v n s ∙ rw q) h

  marking_refresh-Spent :
      (other : String) (n : ℕ) (s : Store)
      → Spent s
      → Spent (set_nx redis (refresh_spent_key other) "1" n s).0
  marking_refresh-Spent other n s h = elim (Bool-cases (exists redis (refresh_spent_key other) s)) [
    | inl e ↦ rw e h
    | inr e ↦ rw e (aside "oidc:refresh:spent:" other "1" n s refl refl h)
  ]

  storing-Spent :
      (token : RefreshToken) (fresh : String) (s : Store)
      → Spent s
      → Spent (issue_refresh_token host redis code_ttl refresh_ttl token fresh s).0
  unfolding issue_refresh_token
  storing-Spent token fresh s h = aside "oidc:refresh:" (host.digest fresh) _ _ s refl refl h

  Keeps-Spent : Keeps host redis code_ttl refresh_ttl Spent (λ f s. Unit)
  Keeps-Spent = record {
    revoking = revoking-Spent;
    marking_code = marking-Spent;
    storing = λ d token fresh s u h. storing-Spent token fresh _ (marking_refresh-Spent d _ s h);
    marking_refresh = λ d s h. marking_refresh-Spent d _ s h;
    forgetting = λ sid s h.
        Spent-same (redis.text-delete (session_families_key sid) (code_key digest) s)
          (redis.text-delete (session_families_key sid) (code_spent_key digest) s) h;
    elapsing = λ n s h. record {
      bounded =
          rw (redis.text-elapse n (code_key digest) s)
            (AtMost-lapse seconds n (text_at s (code_key digest)) h.bounded);
      covered =
          rw
            (redis.text-elapse n (code_key digest) s, redis.text-elapse n (code_spent_key digest) s)
            (Covers-lapse n (text_at s (code_key digest)) (text_at s (code_spent_key digest))
              h.covered);
    };
  }

  -- A code that is drawn later has another digest.
  abbrev pub IsOther : Command → Type 0
  IsOther (issue grant code) = host.digest code ≢ digest
  IsOther _ = Unit

  abbrev pub AllOther : List Command → Type 0
  AllOther [] = Unit
  AllOther (c ∷ cs) = IsOther c × AllOther cs

  issue-Spent :
      (grant : AuthorizationCode) (code : String) (s : Store)
      → host.digest code ≢ digest
      → Spent s
      → Spent (issue_code host redis code_ttl refresh_ttl grant code s).0
  unfolding issue_code
  issue-Spent grant code s other h = elim (Bool-cases (host.digest code == digest)) [
    | inl e ↦ absurd (other ((==_iff (host.digest code) digest).0 e))
    | inr e ↦
        Spent-same
          (redis.text-expire _ _ _ _
            ∙ redis.text-sadd _ _ _ _
            ∙ redis.text-set (code_key (host.digest code)) (code_key digest) _ _ s
            ∙ rw e)
          (redis.text-expire _ _ _ _
            ∙ redis.text-sadd _ _ _ _
            ∙ redis.text-set (code_key (host.digest code)) (code_spent_key digest) _ _ s)
          h
  ]

  step-Spent :
      (c : Command) (s : Store)
      → IsOther c
      → Spent s
      → Spent (step host redis code_ttl refresh_ttl c s)
  unfolding step
  step-Spent (issue grant code) s o h = issue-Spent grant code s o h
  step-Spent (redeem code client uri) s o h =
      redeem-keeps host redis code_ttl refresh_ttl Keeps-Spent code client uri s h
  step-Spent (issue_refresh token fresh) s o h = storing-Spent token fresh s h
  step-Spent (rotate token client now fresh) s o h =
      rotate-keeps host redis code_ttl refresh_ttl Keeps-Spent token client now fresh s
        (λ raw p q. tt) h
  step-Spent (revoke family) s o h = revoking-Spent family s h
  step-Spent (end_session sid) s o h =
      end_session-keeps host redis code_ttl refresh_ttl Keeps-Spent sid s h
  step-Spent (wait n) s o h = Keeps-Spent.elapsing n s h

  pub run-Spent :
      (cs : List Command) (s : Store)
      → AllOther cs
      → Spent s
      → Spent (run host redis code_ttl refresh_ttl cs s)
  unfolding run
  run-Spent [] s o h = h
  run-Spent (c ∷ cs) s o h =
      run-Spent cs (step host redis code_ttl refresh_ttl c s) o.1 (step-Spent c s o.0 h)

  -- With the code spent, no presentation of it is answered with the grant.
  Spent-refuses :
      (client uri : String) (s : Store) (g : AuthorizationCode)
      → Spent s
      → (redeem_found host redis code_ttl refresh_ttl digest client uri
          (get redis (code_key digest) s)
          s).1
        ≢ ok g
  unfolding redeem_found
  Spent-refuses client uri s g h won = elim (Option-cases (text_at s (code_key digest))) [
    | inl gone ↦ cc (rw gone at won)
    | inr ((v, left), there_is) ↦ elim (Option-cases (text_at s (code_spent_key digest))) [
      | inl unmarked ↦ absurd (rw (there_is, unmarked) at h.covered)
      | inr ((w, t), marked) ↦ cc (rw (there_is, marked) at won)
    ]
  ]

  first_mark :
      (s : Store)
      → CodeBound s
      → (set_nx redis (code_spent_key digest) "1" seconds s).1 ≡ true
      → Spent (set_nx redis (code_spent_key digest) "1" seconds s).0
  first_mark s bound first = elim (Bool-cases (exists redis (code_spent_key digest) s)) [
    | inl old ↦ cc (rw old at first)
    | inr new ↦ rw new (mark_covers digest s bound (inr refl))
  ]

  -- What a granted redemption says: the first mark's store is the result, and the grant is bound to
  -- the client and the redirect URI.
  module _ (P : Store → Type 0) where
    redeem_marked-granted :
        (grant : AuthorizationCode) (client uri : String) (s : Store) (b : Bool)
        (g : AuthorizationCode)
        → (b ≡ true → P s)
        → (redeem_marked host redis code_ttl refresh_ttl grant client uri (s, b)).1 ≡ ok g
        → P (redeem_marked host redis code_ttl refresh_ttl grant client uri (s, b)).0
          × (g ≡ grant)
          × (grant.client_id ≡ client)
          × (grant.redirect_uri ≡ uri)
    unfolding redeem_marked
    redeem_marked-granted grant client uri s false g h won = cc
    redeem_marked-granted grant client uri s true g h won =
        elim (Bool-cases (grant.client_id == client)) [
          | inr other ↦ cc (rw other at won)
          | inl mine ↦ elim (Bool-cases (grant.redirect_uri == uri)) [
            | inr other ↦ cc (rw (mine, other) at won)
            | inl same_uri ↦ (
              rw (mine, same_uri) (h refl),
              unwrap (rw (mine, same_uri) at won),
              (==_iff grant.client_id client).0 mine,
              (==_iff grant.redirect_uri uri).0 same_uri,
            )
          ]
        ]
      where
        unwrap : ◌≡◌ {A = Outcome AuthorizationCode} (ok grant) (ok g) → g ≡ grant
        unwrap e = cc

    redeem_found-granted :
        (client uri : String) (o : Option String) (s : Store) (g : AuthorizationCode)
        → ((set_nx redis (code_spent_key digest) "1" seconds s).1 ≡ true
            → P (set_nx redis (code_spent_key digest) "1" seconds s).0)
        → (redeem_found host redis code_ttl refresh_ttl digest client uri o s).1 ≡ ok g
        → P (redeem_found host redis code_ttl refresh_ttl digest client uri o s).0
          × (g.client_id ≡ client)
          × (g.redirect_uri ≡ uri)
          × ((raw : String) × (o ≡ some raw) × (g ≡ code_from_json host raw))
    unfolding redeem_found
    redeem_found-granted client uri none s g b won = cc
    redeem_found-granted client uri (some raw) s g b won =
        let marked = set_nx redis (code_spent_key digest) "1" seconds s in
        let (h, e, c, u) =
          redeem_marked-granted (code_from_json host raw) client uri marked.0 marked.1 g b won in
        (h, rw e c, rw e u, (raw, refl, e))

module _ (host : Host) (redis : Redis) (code_ttl refresh_ttl : ℕ) where
  open redis use {Store, text_at}

  -- A redemption that is granted leaves the code spent.
  pub redeem-Spent :
      (code client uri : String) (s : Store) (g : AuthorizationCode)
      → CodeBound host redis code_ttl refresh_ttl (host.digest code) s
      → (redeem_code host redis code_ttl refresh_ttl code client uri s).1 ≡ ok g
      → Spent host redis code_ttl refresh_ttl
          (host.digest code)
          (redeem_code host redis code_ttl refresh_ttl code client uri s).0
  unfolding redeem_code
  redeem-Spent code client uri s g b won =
      (redeem_found-granted host redis code_ttl refresh_ttl (host.digest code)
        (Spent host redis code_ttl refresh_ttl (host.digest code)) client uri
        (get redis (code_key (host.digest code)) s) s g
        (first_mark host redis code_ttl refresh_ttl (host.digest code) s b) won).0

  -- A code that was redeemed is never redeemed again: after any further operations on the store, by
  -- any clients, and after any time, provided that no later code has the same digest and that the
  -- record of the code lived no longer than codes may when it was redeemed.
  pub redeem_once :
      (code client uri : String) (s : Store) (g : AuthorizationCode)
      → CodeBound host redis code_ttl refresh_ttl (host.digest code) s
      → (redeem_code host redis code_ttl refresh_ttl code client uri s).1 ≡ ok g
      → (cs : List Command) → AllOther host redis code_ttl refresh_ttl (host.digest code) cs
      → (client' uri' : String) (g' : AuthorizationCode)
      → (redeem_code host redis code_ttl refresh_ttl code client' uri' (
          run host redis code_ttl refresh_ttl cs
            (redeem_code host redis code_ttl refresh_ttl code client uri s).0)).1
        ≢ ok g'
  unfolding redeem_code
  redeem_once code client uri s g b won cs others client' uri' g' =
      let spent = redeem-Spent code client uri s g b won in
      Spent-refuses host redis code_ttl refresh_ttl (host.digest code) client' uri'
        (run host redis code_ttl refresh_ttl cs
          (redeem_found host redis code_ttl refresh_ttl (host.digest code) client uri
            (get redis (code_key (host.digest code)) s) s).0)
        g' (run-Spent host redis code_ttl refresh_ttl (host.digest code) cs _ others spent)

  -- A redeemed code was issued to the client that redeems it and for the redirect URI that it
  -- presents, and the grant is the one that was stored for the code.
  pub redeem_bound :
      (code client uri : String) (s : Store) (g : AuthorizationCode)
      → (redeem_code host redis code_ttl refresh_ttl code client uri s).1 ≡ ok g
      → (g.client_id ≡ client)
        × (g.redirect_uri ≡ uri)
        × ((raw : String) × (get redis (code_key (host.digest code)) s ≡ some raw)
            × (g ≡ code_from_json host raw))
  unfolding redeem_code
  redeem_bound code client uri s g won =
      let (h, c, u, r) =
        redeem_found-granted host redis code_ttl refresh_ttl (host.digest code) (λ t. Unit {0})
          client uri (get redis (code_key (host.digest code)) s) s g (λ first. tt) won in
      (c, u, r)
