-- ===== src/Session/Moves.antt =====
-- How campusid/session/store.py moves a session to a fresh identifier, and how it ends all sessions
-- of a subject.
use campus_id.Shared.{
  ℕ, ◌+◌, ◌<◌, String, ◌≡◌, ◌≢◌, refl, sym, ap, ◌∙◌, inl, inr, true, false, Option, none, some,
  List, [], ◌∷◌, ◌==◌, ==_iff, ==_self, if◌then◌else◌, max, min, ◌-◌, Bool-cases, contains,
  sorted_set, arith,
}
use campus_id.Shared.Members.{contains-sorted_set}
use campus_id.Shared.Redis.{Redis}
use campus_id.Session.Store.{
  Session, Start, Host, session_key, subject_index, subject_key, to_json, from_json, replace,
  renamed, write, create, destroy, load, rotate, move_to, elevate, sids_for, destroy_all,
  terminate_subject,
}
use campus_id.Session.Lifetime.{record_at, record_at-write, record_at-destroy, load_live}

module _ {Attributes : Type 0} (host : Host Attributes) (redis : Redis) (idle absolute : ℕ) where
  open redis use {Store, sadd}

  -- The record under an identifier.
  abbrev at : Store → String → Option String
  at s sid = record_at host redis idle absolute s sid

  differs : (sid fresh : String) → fresh ≢ sid → (sid == fresh) ≡ false
  differs sid fresh n = elim (Bool-cases (sid == fresh)) [
    | inl e ↦ absurd (n (sym ((==_iff sid fresh).0 e)))
    | inr e ↦ e
  ]

  -- A session that is written under a fresh identifier before the old one is deleted.
  moved :
      (session : Session Attributes) (sid : String) (now : ℕ) (s : Store)
      → session.sid ≢ sid
      → let t =
          destroy host redis idle absolute sid (write host redis idle absolute session now s) in
        (at t sid ≡ none) × (at t session.sid ≡ some (to_json host session))
  moved session sid now s n = (
    record_at-destroy host redis idle absolute sid (write host redis idle absolute session now s)
          sid
        ∙ rw (==_self sid) refl,
    record_at-destroy host redis idle absolute sid (write host redis idle absolute session now s)
          session.sid
        ∙ rw (differs sid session.sid n) (
            record_at-write host redis idle absolute session now s session.sid
            ∙ rw (==_self session.sid) refl),
  )

  move_to-moved :
      (sid fresh : String) (change : Session Attributes → Session Attributes) (now : ℕ)
      → ((session : Session Attributes) → (change session).sid ≡ fresh)
      → fresh ≢ sid
      → (loaded : Store × Option (Session Attributes)) → (session : Session Attributes)
      → (move_to host redis idle absolute sid change now loaded).1 ≡ some session
      → let t = (move_to host redis idle absolute sid change now loaded).0 in
        ((before : Session Attributes) × (loaded.1 ≡ some before) × (session ≡ change before))
        × (at t sid ≡ none)
        × (at t fresh ≡ some (to_json host session))
  unfolding move_to
  move_to-moved sid fresh change now named n (s, none) session won = grind arith
  move_to-moved sid fresh change now named n (s, some before) session won =
      let e : change before ≡ session = cc in
      let f : session.sid ≡ fresh = sym (ap (λ (x : Session Attributes). x.sid) e) ∙ named before in
      let (gone, kept) = moved session sid now s (λ p. n (sym f ∙ p)) in
      ((before, refl, sym e), rw e gone, rw (e, sym f) kept)

  -- `rotate` under a fresh identifier, when it answers a session: the stored session was live, the
  -- answer is that session with the fresh identifier and the new time of use and every other field
  -- as stored, the old identifier has no record left, and the fresh one holds the answer.
  pub rotate_moves :
      (sid fresh : String) (now : ℕ) (s : Store) (session : Session Attributes)
      → fresh ≢ sid
      → (rotate host redis idle absolute sid fresh now s).1 ≡ some session
      → let after = (rotate host redis idle absolute sid fresh now s).0 in
        ((raw : String) × (at s sid ≡ some raw)
          × (now < (from_json host raw).absolute_expiry)
          × (now < (from_json host raw).last_seen_at + idle)
          × (session ≡ record (from_json host raw) { sid = fresh; last_seen_at = now }))
        × (at after sid ≡ none)
        × (at after fresh ≡ some (to_json host session))
  unfolding rotate replace
  rotate_moves sid fresh now s session n won =
      let ((before, e, change), gone, kept) =
        move_to-moved sid fresh (λ x. renamed x fresh now) now (λ x. refl) n
          (load host redis idle absolute sid now s) session won in
      let (raw, found, early, used, same) = load_live host redis idle absolute sid now s before e in
      ((raw, found, early, used, change ∙ ap (λ x. renamed x fresh now) same), gone, kept)

  -- `elevate` under a fresh identifier, when it answers a session: the stored session was live, the
  -- answer is that session with the fresh identifier, the new assurance, methods and time of
  -- authentication and use, and every other field as stored, the old identifier has no record left,
  -- and the fresh one holds the answer.
  pub elevate_moves :
      (sid fresh acr : String) (amr : List String) (now : ℕ) (s : Store)
      (session : Session Attributes)
      → fresh ≢ sid
      → (elevate host redis idle absolute sid fresh acr amr now s).1 ≡ some session
      → let after = (elevate host redis idle absolute sid fresh acr amr now s).0 in
        ((raw : String) × (at s sid ≡ some raw)
          × (now < (from_json host raw).absolute_expiry)
          × (now < (from_json host raw).last_seen_at + idle)
          × (session ≡ record (from_json host raw) {
            sid = fresh;
            auth_time = now;
            last_seen_at = now;
            acr = some acr;
            amr = amr;
          }))
        × (at after sid ≡ none)
        × (at after fresh ≡ some (to_json host session))
  unfolding elevate replace
  elevate_moves sid fresh acr amr now s session n won =
      let change : Session Attributes → Session Attributes =
        λ x. replace x fresh now now (some acr) amr in
      let ((before, e, changed), gone, kept) =
        move_to-moved sid fresh change now (λ x. refl) n (load host redis idle absolute sid now s)
          session won in
      let (raw, found, early, used, same) = load_live host redis idle absolute sid now s before e in
      ((raw, found, early, used, changed ∙ ap change same), gone, kept)

  record_at-destroy_all :
      (sids : List String) (s : Store) (sid : String)
      → at (destroy_all host redis idle absolute sids s) sid
        ≡ (if contains sid sids then none else at s sid)
  unfolding destroy_all
  record_at-destroy_all [] s sid = refl
  record_at-destroy_all (gone ∷ sids) s sid =
      record_at-destroy_all sids (destroy host redis idle absolute gone s) sid
      ∙ rw (record_at-destroy host redis idle absolute gone s sid)
          (elim (Bool-cases (gone == sid)) [
            | inl e ↦
                rw e
                  (elim (Bool-cases (contains sid sids)) [ inl f ↦ rw f refl | inr f ↦ rw f refl ])
            | inr e ↦ rw e refl
          ])

  -- `terminate_subject` leaves no record under any identifier that the subject's index lists, leaves
  -- every other session's record as it was, and empties the index.
  pub terminate_subject_ends :
      (subject : String) (s : Store) (sid : String)
      → let after = (terminate_subject host redis idle absolute subject s).0 in
        (at after sid
          ≡ (if contains sid (sids_for host redis idle absolute subject s) then none else at s sid))
        × (contains sid (sids_for host redis idle absolute subject after) ≡ false)
  unfolding terminate_subject sids_for
  terminate_subject_ends subject s sid =
      let sids = sorted_set (redis.members_at s (subject_index host subject)) in
      (
        rw (redis.text-delete _ _ _) (record_at-destroy_all sids s sid),
        rw (contains-sorted_set _ _, redis.member-delete _ _ _)
            (rw (==_self (host.digest subject)) refl),
      )

  -- A session that is written is in its subject's index.
  pub write_listed :
      (session : Session Attributes) (now : ℕ) (s : Store)
      → contains session.sid (
          sids_for host redis idle absolute
            (subject_key host session)
            (write host redis idle absolute session now s))
        ≡ true
  unfolding write sids_for
  write_listed session now s =
      let index = subject_index host (subject_key host session) in
      let stored =
        redis.set (session_key session.sid) (to_json host session)
          (max (min idle (session.absolute_expiry - now)) 1) s in
      contains-sorted_set session.sid _
      ∙ redis.member-expire index index session.sid (max absolute 1) (sadd index session.sid stored)
          (omega arith)
      ∙ redis.member-sadd index index session.sid session.sid stored
      ∙ rw (==_self (host.digest (subject_key host session)), ==_self session.sid) refl

  -- The session that `create` starts is ended by `terminate_subject` of its subject.
  pub created_can_be_ended :
      (start : Start Attributes) (fresh : String) (now written : ℕ) (s : Store)
      → let created = create host redis idle absolute start fresh now written s in
        at
          (terminate_subject host redis idle absolute (subject_key host created.1) created.0).0
          fresh
        ≡ none
  unfolding create
  created_can_be_ended start fresh now written s =
      let session = (create host redis idle absolute start fresh now written s).1 in
      let listed = write_listed session written s in
      let ended =
        (terminate_subject_ends (subject_key host session)
          (write host redis idle absolute session written s) fresh).0 in
      ended ∙ rw listed refl
