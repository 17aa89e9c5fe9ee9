-- ===== src/Lifecycle/Retry.antt =====
-- campusid/lifecycle/retry.py. `backoff` counts in units of `BASE_DELAY`, half a second, and the float
-- that it answers is exact. A delay after the jitter is any real number of seconds: the record
-- `Durations` has them, with the documented laws of order and addition. The operation, the generator
-- behind `full_jitter` and the sleep act on a world; the operation answers a result, an error of
-- `retry_on`, or another error. Log lines are left out.
use campus_id.Shared.{
  ℕ, zero, suc, ◌+◌, ◌≡◌, Bool, ◌-◌, ◌*◌, ◌^◌, String, List, [], ◌∷◌, ◌++◌, leb, min, if◌then◌else◌,
}

abbrev pub max_attempts : ℕ
max_attempts = 5

abbrev pub base_delay : ℕ
base_delay = 1

abbrev pub max_delay : ℕ
max_delay = 16

pub record Attempt : Type 0 where
  pub number : ℕ
  pub error : String

-- What a call of the operation does.
pub data Tried (A : Type 0) : Type 0 where
  returned : A → Tried A
  transient : String → Tried A
  other : String → Tried A

-- What `with_retries` does. The message of `RetriesExhausted` reads the last attempt, so that an
-- empty history is an IndexError.
pub data Answer (A : Type 0) : Type 0 where
  result : A → Answer A
  raised : String → Answer A
  exhausted : List Attempt → Answer A
  index_error : Answer A

unfoldable pub backoff : ℕ → ℕ
backoff attempt = if leb attempt 1 then 0 else min (base_delay * 2 ^ (attempt - 2)) max_delay

-- `raise RetriesExhausted(history)`
abbrev pub give_up : {A : Type 0} → List Attempt → Answer A
give_up [] = index_error
give_up (a ∷ history) = exhausted (a ∷ history)

-- What follows one attempt: the next ones, after a transient error.
abbrev pub after :
    {World A : Type 0} → (String → World → World × Answer A) → World × Tried A → World × Answer A
after continue (w, returned a) = (w, result a)
after continue (w, other e) = (w, raised e)
after continue (w, transient e) = continue e w

-- Lengths of time, which are real numbers and not negative.
pub record Durations : Type 1 where
  pub Duration : Type 0
  pub half_seconds : ℕ → Duration
  pub is_zero : Duration → Bool
  pub plus : Duration → Duration → Duration
  pub AtMost : Duration → Duration → Type 0
  pub at_most_trans : {a b c : Duration} → AtMost a b → AtMost b c → AtMost a c
  pub plus_left : {a b : Duration} (c : Duration) → AtMost a b → AtMost (plus a c) (plus b c)
  pub plus_right : (c : Duration) {a b : Duration} → AtMost a b → AtMost (plus c a) (plus c b)
  pub plus_later : (a b : Duration) → AtMost a (plus a b)
  pub plus_half_seconds :
      (a : Duration) (m n : ℕ)
      → plus (plus a (half_seconds m)) (half_seconds n) ≡ plus a (half_seconds (m + n))

module _ (durations : Durations) {World A : Type 0} (operation : World → World × Tried A)
    (uniform : durations.Duration → World → World × durations.Duration)
    (sleep : durations.Duration → World → World) where
  open durations use {Duration, half_seconds, is_zero}

  -- `full_jitter`
  abbrev pub full_jitter : Duration → World → World × Duration
  full_jitter delay w = uniform delay w

  -- The wait before an attempt: none for a delay of zero.
  abbrev pub wait_before : World × Duration → World
  wait_before (w, delay) = if is_zero delay then w else sleep delay w

  unfoldable pub attempt_from : ℕ → ℕ → List Attempt → World → World × Answer A
  attempt_from zero attempt history w = (w, give_up history)
  attempt_from (suc left) attempt history w =
      after
        (λ e.
          attempt_from left (suc attempt)
            (history ++ (record { number = attempt; error = e } ∷ [])))
        (operation (wait_before (full_jitter (half_seconds (backoff attempt)) w)))

  unfoldable pub with_retries : ℕ → World → World × Answer A
  with_retries attempts w = attempt_from attempts 1 [] w
