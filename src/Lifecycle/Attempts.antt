-- ===== src/Lifecycle/Attempts.antt =====
-- What a retried write of campusid/lifecycle/retry.py does.
use campus_id.Shared.{
  ℕ, zero, suc, ◌+◌, String, ◌≡◌, refl, sym, ap, ◌∙◌, inl, inr, List, [], ◌∷◌, ◌++◌, map,
  Bool-cases,
}
use campus_id.Lifecycle.Retry.{
  Attempt, Tried, returned, transient, other, Answer, exhausted, backoff, give_up, Durations,
  attempt_from, after, with_retries, wait_before, max_attempts,
}

-- `n` numbers from `k` on.
abbrev pub upto : ℕ → ℕ → List ℕ
upto k zero = []
upto k (suc n) = k ∷ upto (suc k) n

abbrev numbers : List Attempt → List ℕ
numbers history = map (λ (a : Attempt). a.number) history

numbers-append :
    (xs : List Attempt) (a : Attempt) (ys : List ℕ)
    → numbers (xs ++ (a ∷ [])) ++ ys ≡ numbers xs ++ (a.number ∷ ys)
numbers-append [] a ys = refl
numbers-append (x ∷ xs) a ys = ap (λ ns. x.number ∷ ns) (numbers-append xs a ys)

append-nil : (xs : List ℕ) → xs ++ [] ≡ xs
append-nil [] = refl
append-nil (x ∷ xs) = ap (λ ys. x ∷ ys) (append-nil xs)

give_up-history :
    {A : Type 0} (history h : List Attempt)
    → ◌≡◌ {A = Answer A} (give_up history) (exhausted h)
    → h ≡ history
give_up-history [] h e = cc
give_up-history (a ∷ history) h e = cc

after-exhausted :
    {World A : Type 0} (continue : String → World → World × Answer A) (tried : World × Tried A)
    (h : List Attempt)
    → (after continue tried).1 ≡ exhausted h
    → (e : String) × (w : World) × ((continue e w).1 ≡ exhausted h)
after-exhausted continue (w, returned a) h e = cc
after-exhausted continue (w, other x) h e = cc
after-exhausted continue (w, transient x) h e = (x, w, e)

module _ (durations : Durations) {World A : Type 0} (operation : World → World × Tried A)
    (uniform : durations.Duration → World → World × durations.Duration)
    (sleep : durations.Duration → World → World) where
  attempt_from-numbers :
      (left attempt : ℕ) (history h : List Attempt) (w : World)
      → (attempt_from durations operation uniform sleep left attempt history w).1 ≡ exhausted h
      → numbers h ≡ numbers history ++ upto attempt left
  unfolding attempt_from
  attempt_from-numbers zero attempt history h w e =
      ap numbers (give_up-history history h e) ∙ sym (append-nil (numbers history))
  attempt_from-numbers (suc left) attempt history h w e =
      let (x, w', e') =
        after-exhausted
          (λ e.
            attempt_from durations operation uniform sleep left (suc attempt)
              (history ++ (record { number = attempt; error = e } ∷ [])))
          (operation (
            wait_before durations operation uniform sleep
              (uniform (durations.half_seconds (backoff attempt)) w)))
          h e in
      attempt_from-numbers left (suc attempt)
        (history ++ (record { number = attempt; error = x } ∷ [])) h w' e'
      ∙ numbers-append history (record { number = attempt; error = x }) (upto (suc attempt) left)

  -- When every attempt failed, the history that is raised has one entry for each of the attempts,
  -- numbered from 1 in order.
  pub exhausted_history :
      (attempts : ℕ) (h : List Attempt) (w : World)
      → (with_retries durations operation uniform sleep attempts w).1 ≡ exhausted h
      → map (λ (a : Attempt). a.number) h ≡ upto 1 attempts
  unfolding with_retries
  exhausted_history attempts h w e = attempt_from-numbers attempts 1 [] h w e

-- The backoffs before `n` attempts from the `k`-th on.
abbrev pub backoffs_from : ℕ → ℕ → ℕ
backoffs_from k zero = 0
backoffs_from k (suc n) = backoff k + backoffs_from (suc k) n

-- What the world is after an attempt and what follows it.
after-world :
    {World A : Type 0} (P : World → Type 0) (continue : String → World → World × Answer A)
    (tried : World × Tried A)
    → P tried.0
    → ((e : String) → P (continue e tried.0).0)
    → P (after continue tried).0
after-world P continue (w, returned a) h k = h
after-world P continue (w, other e) h k = h
after-world P continue (w, transient e) h k = k e

-- A world with a clock that the sleep advances, with a generator that stays within its window.
module _ (durations : Durations) {World A : Type 0} (operation : World → World × Tried A)
    (uniform : durations.Duration → World → World × durations.Duration)
    (sleep : durations.Duration → World → World) (clock : World → durations.Duration)
    (instant : (w : World) → clock (operation w).0 ≡ clock w)
    (within : (d : durations.Duration) (w : World)
      → (clock (uniform d w).0 ≡ clock w) × durations.AtMost (uniform d w).1 d)
    (sleeps : (d : durations.Duration) (w : World)
      → clock (sleep d w) ≡ durations.plus (clock w) d) where
  open durations use {Duration, half_seconds, is_zero, plus, AtMost, at_most_trans, plus_later}

  wait_before-clock :
      (d : Duration) (w : World)
      → AtMost
          (clock (wait_before durations operation uniform sleep (uniform d w)))
          (plus (clock w) d)
  wait_before-clock d w = elim (Bool-cases (is_zero (uniform d w).1)) [
    | inl e ↦ rw (e, (within d w).0) (plus_later (clock w) d)
    | inr e ↦
        rw (e, sleeps (uniform d w).1 (uniform d w).0, (within d w).0)
          (durations.plus_right (clock w) (within d w).1)
  ]

  attempt_from-clock :
      (left attempt : ℕ) (history : List Attempt) (w : World)
      → AtMost
          (clock (attempt_from durations operation uniform sleep left attempt history w).0)
          (plus (clock w) (half_seconds (backoffs_from attempt left)))
  unfolding attempt_from
  attempt_from-clock zero attempt history w = plus_later (clock w) (half_seconds 0)
  attempt_from-clock (suc left) attempt history w =
      let first = half_seconds (backoff attempt) in
      let rest = half_seconds (backoffs_from (suc attempt) left) in
      let waited = wait_before durations operation uniform sleep (uniform first w) in
      let late : AtMost (clock (operation waited).0) (plus (clock w) first) =
        rw (instant waited) (wait_before-clock first w) in
      let total =
        durations.plus_half_seconds (clock w) (backoff attempt)
          (backoffs_from (suc attempt) left) in
      rw (← total) (
        after-world (λ v. AtMost (clock v) (plus (plus (clock w) first) rest))
          (λ e.
            attempt_from durations operation uniform sleep left (suc attempt)
              (history ++ (record { number = attempt; error = e } ∷ [])))
          (operation waited) (at_most_trans late (plus_later (plus (clock w) first) rest))
          (λ e.
            at_most_trans
              (attempt_from-clock left (suc attempt)
                (history ++ (record { number = attempt; error = e } ∷ [])) (operation waited).0)
              (durations.plus_left rest late)))

  -- A run of the default five attempts sleeps for at most fifteen half seconds, whatever reals the
  -- jitter draws between zero and the backoff, when a sleep takes as long as it is asked to and
  -- nothing else takes time.
  pub waits_fifteen :
      (w : World)
      → AtMost
          (clock (with_retries durations operation uniform sleep max_attempts w).0)
          (plus (clock w) (half_seconds 15))
  unfolding with_retries backoff
  waits_fifteen w = attempt_from-clock 5 1 [] w
