-- ===== src/Session/Lifetime.antt =====
-- What the operations of campusid/session/store.py leave under a session's key.
use campus_id.Shared.{
  ℕ, ◌+◌, ◌<◌, String, ◌↔◌, ◌≡◌, refl, ap, ◌∙◌, inl, inr, true, false, Option, none, some, ◌==◌,
  ==_self, if◌then◌else◌, Bool-cases, Option-cases, arith,
}
use campus_id.Shared.Redis.{Redis, get}
use campus_id.Session.Store.{
  replace, Session, Host, session_key, to_json, from_json, touch, write, destroy, destroy_found,
  timed_out, load, load_found,
}

module _ {Attributes : Type 0} (host : Host Attributes) (redis : Redis) (idle absolute : ℕ) where
  open redis use {Store, text_at}

  abbrev pub record_at : Store → String → Option String
  record_at s sid = get redis (session_key sid) s

  -- The write of a session reaches its own key alone.
  pub record_at-write :
      (session : Session Attributes) (now : ℕ) (s : Store) (sid : String)
      → record_at (write host redis idle absolute session now s) sid
        ≡ (if session.sid == sid then some (to_json host session) else record_at s sid)
  unfolding write
  record_at-write session now s sid =
      rw (redis.text-expire _ _ _ _, redis.text-sadd _ _ _ _, redis.text-set _ _ _ _ _)
        (elim (Bool-cases (session.sid == sid)) [ inl e ↦ rw e refl | inr e ↦ rw e refl ])

  -- So does its deletion.
  pub record_at-destroy :
      (gone : String) (s : Store) (sid : String)
      → record_at (destroy host redis idle absolute gone s) sid
        ≡ (if gone == sid then none else record_at s sid)
  unfolding destroy destroy_found
  record_at-destroy gone s sid = elim (Option-cases (get redis (session_key gone) s)) [
    | inl e ↦
        rw (e, redis.text-delete _ _ _)
          (elim (Bool-cases (gone == sid)) [ inl e ↦ rw e refl | inr e ↦ rw e refl ])
    | inr (raw, e) ↦
        rw (e, redis.text-delete _ _ _, redis.text-srem _ _ _ _)
          (elim (Bool-cases (gone == sid)) [ inl e ↦ rw e refl | inr e ↦ rw e refl ])
  ]

  load_found-record :
      (sid raw : String) (now : ℕ) (s : Store)
      → load_found host redis idle absolute sid now (some raw) s ≡ (
          if timed_out host redis idle absolute (from_json host raw) now
          then (destroy host redis idle absolute sid s, none)
          else (
            write host redis idle absolute (touch (from_json host raw) now) now s,
            some (touch (from_json host raw) now),
          ))
  unfolding load_found
  load_found-record sid raw now s = refl

  -- `load`, by what it finds.
  pub load-record :
      (sid raw : String) (now : ℕ) (s : Store)
      → record_at s sid ≡ some raw
      → load host redis idle absolute sid now s ≡ (
          if timed_out host redis idle absolute (from_json host raw) now
          then (destroy host redis idle absolute sid s, none)
          else (
            write host redis idle absolute (touch (from_json host raw) now) now s,
            some (touch (from_json host raw) now),
          ))
  unfolding load
  load-record sid raw now s e =
      ap (λ o. load_found host redis idle absolute sid now o s) e ∙ load_found-record sid raw now s

  pub load-none :
      (sid : String) (now : ℕ) (s : Store)
      → record_at s sid ≡ none
      → load host redis idle absolute sid now s ≡ (s, none)
  unfolding load load_found
  load-none sid now s e = ap (λ o. load_found host redis idle absolute sid now o s) e

  pub timed_out-false :
      (session : Session Attributes) (now : ℕ)
      → (timed_out host redis idle absolute session now ≡ false)
        ↔ ((now < session.absolute_expiry) × (now < session.last_seen_at + idle))
  unfolding timed_out
  timed_out-false session now =
      ((λ h. (ground arith, ground arith)), (λ (before, used). ground arith))

  -- A loaded session was stored under the identifier, is used before its absolute expiry and within
  -- the idle timeout, and differs from the stored one in the time it was last seen only.
  pub load_live :
      (sid : String) (now : ℕ) (s : Store) (session : Session Attributes)
      → (load host redis idle absolute sid now s).1 ≡ some session
      → ((raw : String) × (record_at s sid ≡ some raw)
          × (now < (from_json host raw).absolute_expiry)
          × (now < (from_json host raw).last_seen_at + idle)
          × (session ≡ record (from_json host raw) { last_seen_at = now }))
  unfolding replace
  load_live sid now s session won = elim (Option-cases (record_at s sid)) [
    | inl e ↦ let h = rw (load-none sid now s e) at won in cc
    | inr (raw, e) ↦
        let h = rw (load-record sid raw now s e) at won in
        elim (Bool-cases (timed_out host redis idle absolute (from_json host raw) now)) [
          | inl t ↦ let h' = rw t at h in cc
          | inr t ↦
              let h' = rw t at h in
              let (before, used) = (timed_out-false (from_json host raw) now).0 t in
              (raw, e, before, used, cc)
        ]
  ]

  -- A session past either timeout is refused, and its record is gone afterwards.
  pub load_expired :
      (sid raw : String) (now : ℕ) (s : Store)
      → record_at s sid ≡ some raw
      → timed_out host redis idle absolute (from_json host raw) now ≡ true
      → ((load host redis idle absolute sid now s).1 ≡ none)
        × (record_at (load host redis idle absolute sid now s).0 sid ≡ none)
  load_expired sid raw now s e t =
      rw (load-record sid raw now s e)
        (rw t (refl, rw (record_at-destroy sid s sid, ==_self sid) refl))
