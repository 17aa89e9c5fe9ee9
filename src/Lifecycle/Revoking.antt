-- ===== src/Lifecycle/Revoking.antt =====
-- The grace period of an entitlement, as `_revocation` of campusid/lifecycle/rules.py counts it.
use campus_id.Shared.{
  ℕ, ◌+◌, String, ◌≡◌, ◌≢◌, refl, ap, ◌∙◌, ◌↔◌, inl, inr, List, [], ◌∷◌, ◌==◌, ==_iff, Bool-cases,
}
use campus_id.Lifecycle.Rules.{
  Entitlement, Revocation, LifecycleRules, entitlement_of, grace_of, revocation,
}

-- The grace period of a URN in a catalogue: that of the first entitlement with this URN, and no day
-- where no entitlement has it.
pub data HasGrace (urn : String) : List Entitlement → ℕ → Type 0 where
  undeclared : HasGrace urn [] 0
  declared :
      {e : Entitlement} {rest : List Entitlement}
      → e.urn ≡ urn
      → HasGrace urn (e ∷ rest) e.grace_days
  further :
      {e : Entitlement} {rest : List Entitlement} {days : ℕ}
      → e.urn ≢ urn
      → HasGrace urn rest days
      → HasGrace urn (e ∷ rest) days

grace_of-HasGrace :
    (urn : String) (catalogue : List Entitlement)
    → HasGrace urn catalogue (grace_of (entitlement_of catalogue urn))
grace_of-HasGrace urn [] = undeclared
grace_of-HasGrace urn (e ∷ rest) = elim (Bool-cases (e.urn == urn)) [
  | inl same ↦ rw same (declared ((==_iff e.urn urn).0 same))
  | inr other ↦
      rw other (further (λ p. cc (other, (==_iff e.urn urn).1 p)) (grace_of-HasGrace urn rest))
]

pub HasGrace-grace_of :
    {urn : String} {catalogue : List Entitlement} {days : ℕ}
    → HasGrace urn catalogue days
    → days ≡ grace_of (entitlement_of catalogue urn)
HasGrace-grace_of undeclared = refl
HasGrace-grace_of {urn} (declared {e} {rest} same) = rw ((==_iff e.urn urn).1 same) refl
HasGrace-grace_of {urn} (further {e} {rest} other h) = elim (Bool-cases (e.urn == urn)) [
  | inl same ↦ absurd (other ((==_iff e.urn urn).0 same))
  | inr differs ↦ rw differs (HasGrace-grace_of h)
]

-- A revocation with its days and its date as `_revocation` counts them.
pub revocation_iff :
    (rules : LifecycleRules) (today : ℕ) (r : Revocation)
    → (r ≡ revocation rules today r.urn)
      ↔ (HasGrace r.urn rules.entitlements r.grace_days × (r.effective ≡ today + r.grace_days))
unfolding revocation
revocation_iff rules today r =
    let days = grace_of (entitlement_of rules.entitlements r.urn) in
    (
      (λ e.
          let d : r.grace_days ≡ days = ap (λ (x : Revocation). x.grace_days) e in
          (
            rw d (grace_of-HasGrace r.urn rules.entitlements),
            ap (λ (x : Revocation). x.effective) e ∙ rw d refl,
          )),
      (λ (h, e).
          let d = HasGrace-grace_of h in
          ap (λ n. record { urn = r.urn; effective = n; grace_days = r.grace_days }) e
          ∙ ap (λ n. record { urn = r.urn; effective = today + n; grace_days = n }) d),
    )
