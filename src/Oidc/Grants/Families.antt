-- ===== src/Oidc/Grants/Families.antt =====
-- A revoked token family of campusid/oidc/grants.py stays revoked.
use campus_id.Shared.{
  ℕ, ◌-◌, ◌≤◌, String, ◌≡◌, ◌≢◌, refl, ◌∙◌, ◌⊎◌, inl, inr, Bool, true, false, Option, none, some,
  List, [], ◌∷◌, arith, ltb, ◌==◌, ==_iff, Bool-cases, Option-cases,
}
use campus_id.Shared.Redis.{Redis, Key, lapse, exists, set_nx, get}
use campus_id.Oidc.Errors.{Outcome, ok}
use campus_id.Oidc.Grants.{
  AuthorizationCode, RefreshToken, Host, refresh_key, family_revoked_key, session_families_key,
  refresh_seconds, issue_code, revoke_family, issue_refresh_token, rotate_marked, rotate_found,
  rotate_refresh_token, refresh_from_json, is_family_revoked, successor, refresh_to_json,
  refresh_from_json-refresh_to_json,
}
use campus_id.Oidc.Grants.Lifetimes.{
  Command, issue, redeem, issue_refresh, rotate, revoke, end_session, wait, AtMost, AtMost-lapse,
  step, run, Keeps, redeem-keeps, rotate-keeps, end_session-keeps,
}

-- A marker that outlives a record with so many seconds left.
abbrev pub Outlives : ℕ → Option (String × ℕ) → Type 0
Outlives left none = ⊥
Outlives left (some (w, t)) = left ≤ t

module _ (host : Host) (redis : Redis) (code_ttl refresh_ttl : ℕ) (family : String) where
  open redis use {Store, text_at}

  abbrev seconds : ℕ
  seconds = refresh_seconds host redis code_ttl refresh_ttl

  -- A record of a refresh token, where it is one of the family, lives no longer than the marker.
  abbrev Covered : Option (String × ℕ) → Option (String × ℕ) → Type 0
  Covered none m = Unit
  Covered (some (v, left)) m = (refresh_from_json host v).family_id ≡ family → Outlives left m

  Covered-lapse :
      (n : ℕ) (o m : Option (String × ℕ)) → Covered o m → Covered (lapse n o) (lapse n m)
  Covered-lapse n none m h = tt
  Covered-lapse n (some (v, left)) none h = elim (Bool-cases (ltb n left)) [
    | inl e ↦ rw e (λ p. h p)
    | inr e ↦ rw e tt
  ]
  Covered-lapse n (some (v, left)) (some (w, t)) h = elim (Bool-cases (ltb n left)) [
    | inr e ↦ rw e tt
    | inl e ↦ rw e (λ p. longer (h p) e)
  ]
    where
      longer : left ≤ t → ltb n left ≡ true → Outlives (left - n) (lapse n (some (w, t)))
      longer k e = let f : ltb n t ≡ true = ground arith in rw f (omega arith)

  -- Every refresh token lives at most as long as refresh tokens may, and no token of the family
  -- outlives the family's revocation.
  pub record FamilyDead (s : Store) : Type 0 where
    pub bounded : (digest : String) → AtMost seconds (text_at s (refresh_key digest))
    pub covered :
        (digest : String)
        → Covered (text_at s (refresh_key digest)) (text_at s (family_revoked_key family))

  FamilyDead-same :
      {s t : Store}
      → ((digest : String) → text_at t (refresh_key digest) ≡ text_at s (refresh_key digest))
      → text_at t (family_revoked_key family) ≡ text_at s (family_revoked_key family)
      → FamilyDead s
      → FamilyDead t
  FamilyDead-same p q h = record {
    bounded = λ d. rw (p d) (h.bounded d);
    covered = λ d. rw (p d, q) (h.covered d);
  }

  Covered-AtMost :
      (v : String) (o : Option (String × ℕ)) → AtMost seconds o → Covered o (some (v, seconds))
  Covered-AtMost v none h = tt
  Covered-AtMost v (some (w, left)) h = λ p. h

  -- A revocation of this family makes it dead; of another, leaves it dead.
  pub revoking-FamilyDead :
      (f : String) (s : Store)
      → ((digest : String) → AtMost seconds (text_at s (refresh_key digest)))
      → (FamilyDead s ⊎ (f ≡ family))
      → FamilyDead (revoke_family host redis code_ttl refresh_ttl f s)
  unfolding revoke_family
  revoking-FamilyDead f s b c =
      let kept =
        λ (d : String). redis.text-set (family_revoked_key f) (refresh_key d) "1" seconds s in
      let marker =
        redis.text-set (family_revoked_key f) (family_revoked_key family) "1" seconds s in
      elim (Bool-cases (f == family)) [
        | inl e ↦ record {
          bounded = λ d. rw (kept d) (b d);
          covered =
              λ d. rw (kept d, marker, e) (Covered-AtMost "1" (text_at s (refresh_key d)) (b d));
        }
        | inr e ↦ elim c [
          | inr p ↦ cc (e, (==_iff f family).1 p)
          | inl h ↦ FamilyDead-same kept (marker ∙ rw e) h
        ]
      ]

  -- A write under other keys.
  aside :
      (prefix name v : String) (n : ℕ) (s : Store)
      → (prefix == "oidc:refresh:") ≡ false
      → (prefix == "oidc:family:revoked:") ≡ false
      → FamilyDead s
      → FamilyDead (redis.set (record { prefix = prefix; name = name }) v n s)
  aside prefix name v n s p q h =
      let k : Key = record { prefix = prefix; name = name } in
      FamilyDead-same (λ d. redis.text-set k (refresh_key d) v n s ∙ rw p)
        (redis.text-set k (family_revoked_key family) v n s ∙ rw q) h

  marking-FamilyDead :
      (prefix name : String) (n : ℕ) (s : Store)
      → (prefix == "oidc:refresh:") ≡ false
      → (prefix == "oidc:family:revoked:") ≡ false
      → FamilyDead s
      → FamilyDead (set_nx redis (record { prefix = prefix; name = name }) "1" n s).0
  marking-FamilyDead prefix name n s p q h =
      elim (Bool-cases (exists redis (record { prefix = prefix; name = name }) s)) [
        | inl e ↦ rw e h
        | inr e ↦ rw e (aside prefix name "1" n s p q h)
      ]

  -- Storing a token of another family.
  storing-FamilyDead :
      (token : RefreshToken) (fresh : String) (s : Store)
      → token.family_id ≢ family
      → FamilyDead s
      → FamilyDead (issue_refresh_token host redis code_ttl refresh_ttl token fresh s).0
  unfolding issue_refresh_token
  storing-FamilyDead token fresh s other h =
      let k = refresh_key (host.digest fresh) in
      let marker =
        redis.text-set k (family_revoked_key family) (refresh_to_json host token) seconds s in
      record {
        bounded = λ d.
            rw (redis.text-set k (refresh_key d) (refresh_to_json host token) seconds s)
              (elim (Bool-cases (host.digest fresh == d)) [
                | inl e ↦ rw e (omega arith)
                | inr e ↦ rw e (h.bounded d)
              ]);
        covered = λ d.
            rw (marker, redis.text-set k (refresh_key d) (refresh_to_json host token) seconds s)
              (elim (Bool-cases (host.digest fresh == d)) [
                | inl e ↦ rw e (λ p. absurd (other (rw refresh_from_json-refresh_to_json at p)))
                | inr e ↦ rw e (h.covered d)
              ]);
      }

  Keeps-FamilyDead : Keeps host redis code_ttl refresh_ttl FamilyDead (λ f s. f ≢ family)
  Keeps-FamilyDead = record {
    revoking = λ f s h. revoking-FamilyDead f s h.bounded (inl h);
    marking_code = λ d s h. marking-FamilyDead "oidc:code:spent:" d _ s refl refl h;
    storing = λ d token fresh s other h.
        storing-FamilyDead token fresh _ other
          (marking-FamilyDead "oidc:refresh:spent:" d _ s refl refl h);
    marking_refresh = λ d s h. marking-FamilyDead "oidc:refresh:spent:" d _ s refl refl h;
    forgetting = λ sid s h.
        FamilyDead-same (λ d. redis.text-delete (session_families_key sid) (refresh_key d) s)
          (redis.text-delete (session_families_key sid) (family_revoked_key family) s) h;
    elapsing = λ n s h. record {
      bounded = λ d.
          rw (redis.text-elapse n (refresh_key d) s)
            (AtMost-lapse seconds n (text_at s (refresh_key d)) (h.bounded d));
      covered = λ d.
          rw
            (
              redis.text-elapse n (refresh_key d) s,
              redis.text-elapse n (family_revoked_key family) s,
            )
            (Covered-lapse n (text_at s (refresh_key d)) (text_at s (family_revoked_key family))
              (h.covered d));
    };
  }

  -- A token of a dead family that is presented finds its family revoked.
  dead_token :
      (raw digest : String) (s : Store)
      → FamilyDead s
      → get redis (refresh_key digest) s ≡ some raw
      → (refresh_from_json host raw).family_id ≡ family
      → is_family_revoked host redis code_ttl refresh_ttl (refresh_from_json host raw).family_id s
        ≡ true
  unfolding is_family_revoked
  dead_token raw digest s h found p = rw p (elim (Option-cases (text_at s (refresh_key digest))) [
    | inl gone ↦ cc (rw gone at found)
    | inr ((v, left), there_is) ↦ elim (Option-cases (text_at s (family_revoked_key family))) [
      | inr ((w, t), marked) ↦ rw marked
      | inl unmarked ↦
          let e : v ≡ raw = some-eq (rw there_is at found) in
          absurd ((rw (there_is, unmarked, e) at (h.covered digest)) p)
    ]
  ])
    where
      some-eq : {a b : String} → some a ≡ some b → a ≡ b
      some-eq q = cc

  rotate_allowed :
      (token : String) (s : Store)
      → FamilyDead s
      → (raw : String) → get redis (refresh_key (host.digest token)) s ≡ some raw
      → is_family_revoked host redis code_ttl refresh_ttl (refresh_from_json host raw).family_id s
        ≡ false
      → (refresh_from_json host raw).family_id ≢ family
  rotate_allowed token s h raw found live p =
      cc (dead_token raw (host.digest token) s h found p, live)

  issue-FamilyDead :
      (grant : AuthorizationCode) (code : String) (s : Store)
      → FamilyDead s
      → FamilyDead (issue_code host redis code_ttl refresh_ttl grant code s).0
  unfolding issue_code
  issue-FamilyDead grant code s h =
      FamilyDead-same (λ d. redis.text-expire _ _ _ _ ∙ redis.text-sadd _ _ _ _)
        (redis.text-expire _ _ _ _ ∙ redis.text-sadd _ _ _ _)
        (aside "oidc:code:" (host.digest code) _ _ s refl refl h)

  -- No refresh token of the family is issued afresh, as a redemption of its code would.
  abbrev pub IsElsewhere : Command → Type 0
  IsElsewhere (issue_refresh token fresh) = token.family_id ≢ family
  IsElsewhere _ = Unit

  abbrev pub AllElsewhere : List Command → Type 0
  AllElsewhere [] = Unit
  AllElsewhere (c ∷ cs) = IsElsewhere c × AllElsewhere cs

  step-FamilyDead :
      (c : Command) (s : Store)
      → IsElsewhere c
      → FamilyDead s
      → FamilyDead (step host redis code_ttl refresh_ttl c s)
  unfolding step
  step-FamilyDead (issue grant code) s o h = issue-FamilyDead grant code s h
  step-FamilyDead (redeem code client uri) s o h =
      redeem-keeps host redis code_ttl refresh_ttl Keeps-FamilyDead code client uri s h
  step-FamilyDead (issue_refresh token fresh) s o h = storing-FamilyDead token fresh s o h
  step-FamilyDead (rotate token client now fresh) s o h =
      rotate-keeps host redis code_ttl refresh_ttl Keeps-FamilyDead token client now fresh s
        (rotate_allowed token s h) h
  step-FamilyDead (revoke f) s o h = Keeps-FamilyDead.revoking f s h
  step-FamilyDead (end_session sid) s o h =
      end_session-keeps host redis code_ttl refresh_ttl Keeps-FamilyDead sid s h
  step-FamilyDead (wait n) s o h = Keeps-FamilyDead.elapsing n s h

  run-FamilyDead :
      (cs : List Command) (s : Store)
      → AllElsewhere cs
      → FamilyDead s
      → FamilyDead (run host redis code_ttl refresh_ttl cs s)
  unfolding run
  run-FamilyDead [] s o h = h
  run-FamilyDead (c ∷ cs) s o h =
      run-FamilyDead cs (step host redis code_ttl refresh_ttl c s) o.1 (step-FamilyDead c s o.0 h)

  rotate_marked-family :
      (token : RefreshToken) (client : String) (now : ℕ) (fresh fresh' : String) (s : Store)
      (b : Bool) (next : RefreshToken)
      → (rotate_marked host redis code_ttl refresh_ttl token client now fresh (s, b)).1
        ≡ ok (fresh', next)
      → next.family_id ≡ token.family_id
  unfolding rotate_marked issue_refresh_token
  rotate_marked-family token client now fresh fresh' s false next won = cc
  rotate_marked-family token client now fresh fresh' s true next won =
      elim (Bool-cases (token.client_id == client)) [
        | inr other ↦ cc (rw other at won)
        | inl mine ↦ unwrap (rw mine at won)
      ]
    where
      unwrap :
          ◌≡◌ {A = Outcome (String × RefreshToken)}
            (ok (fresh, successor host redis code_ttl refresh_ttl token now))
            (ok (fresh', next))
          → next.family_id ≡ token.family_id
      unwrap e = ground arith

  rotate_found-family :
      (digest client : String) (now : ℕ) (fresh fresh' : String) (o : Option String) (s : Store)
      (next : RefreshToken)
      → ((raw : String)
          → o ≡ some raw
          → is_family_revoked host redis code_ttl refresh_ttl
              (refresh_from_json host raw).family_id
              s
            ≡ false
          → (refresh_from_json host raw).family_id ≢ family)
      → (rotate_found host redis code_ttl refresh_ttl digest client now fresh o s).1
        ≡ ok (fresh', next)
      → next.family_id ≢ family
  unfolding rotate_found
  rotate_found-family digest client now fresh fresh' none s next allowed won = cc
  rotate_found-family digest client now fresh fresh' (some raw) s next allowed won =
      elim (Bool-cases (
        is_family_revoked host redis code_ttl refresh_ttl (refresh_from_json host raw).family_id
          s)) [
            | inl dead ↦ cc (rw dead at won)
            | inr live ↦
                rw
                  (rotate_marked-family (refresh_from_json host raw) client now fresh fresh' _ _
                    next (rw live at won))
                  (allowed raw refl live)
          ]

  -- Once a family is revoked, no refresh token of it is ever rotated again: after any further
  -- operations that issue no token of the family afresh, and after any time, a rotation that succeeds
  -- is of another family. The refresh tokens in the store at the revocation live no longer than
  -- refresh tokens may.
  pub revoked_family_stays :
      (s : Store)
      → ((digest : String) → AtMost seconds (text_at s (refresh_key digest)))
      → (cs : List Command) → AllElsewhere cs
      → (token client : String) (now : ℕ) (fresh fresh' : String) (next : RefreshToken)
      → (rotate_refresh_token host redis code_ttl refresh_ttl token client now fresh (
          run host redis code_ttl refresh_ttl cs
            (revoke_family host redis code_ttl refresh_ttl family s))).1
        ≡ ok (fresh', next)
      → next.family_id ≢ family
  unfolding rotate_refresh_token
  revoked_family_stays s b cs elsewhere token client now fresh fresh' next won =
      let dead =
        run-FamilyDead cs (revoke_family host redis code_ttl refresh_ttl family s) elsewhere
          (revoking-FamilyDead family s b (inr refl)) in
      rotate_found-family (host.digest token) client now fresh fresh' _ _ next
        (rotate_allowed token
          (run host redis code_ttl refresh_ttl cs
            (revoke_family host redis code_ttl refresh_ttl family s))
          dead)
        won
