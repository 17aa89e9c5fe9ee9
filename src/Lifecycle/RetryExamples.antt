-- ===== src/Lifecycle/RetryExamples.antt =====
-- A retried write that fails each time, with durations in microseconds; the world is the clock itself.
use campus_id.Shared.{ℕ, ◌+◌, ◌-◌, ◌*◌, ◌≤◌, ◌≡◌, refl, [], ◌∷◌, eqb, arith}
use campus_id.Lifecycle.Retry.{
  Attempt, Tried, transient, exhausted, backoff, Durations, attempt_from, with_retries,
  max_attempts,
}
use campus_id.Lifecycle.Attempts.{waits_fifteen}

abbrev microseconds : Durations
microseconds = record {
  Duration = ℕ;
  half_seconds = λ n. n * 500000;
  is_zero = λ n. eqb n 0;
  plus = λ a b. a + b;
  AtMost = λ a b. a ≤ b;
  at_most_trans = λ h k. omega (arith, h, k);
  plus_left = λ c h. omega (arith, h);
  plus_right = λ c h. omega (arith, h);
  plus_later = λ a b. omega arith;
  plus_half_seconds = λ a m n. omega arith;
}

abbrev refuses : ℕ → ℕ × Tried (Unit {0})
refuses w = (w, transient "busy")

-- A generator that answers one microsecond less than the end of its window.
abbrev shorter : ℕ → ℕ → ℕ × ℕ
shorter d w = (w, d - 1)

abbrev sleep : ℕ → ℕ → ℕ
sleep d w = w + d

abbrev busy : ℕ → Attempt
busy n = record { number = n; error = "busy" }

refused :
    (with_retries microseconds refuses shorter sleep 2 7)
    ≡ (500006, exhausted (busy 1 ∷ busy 2 ∷ []))
unfolding with_retries attempt_from backoff
refused = refl

waits_fifteen_example :
    (with_retries microseconds refuses shorter sleep max_attempts 7).0 ≤ 7 + 15 * 500000
waits_fifteen_example =
    waits_fifteen microseconds refuses shorter sleep (λ w. w) (λ w. refl)
      (λ d w. (refl, omega arith)) (λ d w. refl) 7
