-- ===== src/Examples/Retries.antt =====
-- An operation that succeeds at the second attempt, and the waits of later ones.
use diffah.Base.{ℕ, zero, suc, true, none, ◌≡◌, Option}
use diffah.Base.Int.{pos}
use diffah.Diff.Errors.{Error, Result, ok, err, message}
use diffah.Importer.Retry.{wait_after, with_retry}
use diffah.Importer.Retry.Bounded.{Stops, with_retry-Stops, wait_after_overflow}

abbrev attempts : ℕ → Result ℕ
attempts zero = err (message "eof")
attempts (suc n) = ok n

abbrev never : ℕ → Option Error
never n = none

with_retry_example :
    Stops
      (λ e. true)
      attempts
      never
      (pos 0)
      0
      3
      (with_retry (λ e. true) attempts never (pos 0) (pos 3))
with_retry_example = with_retry-Stops (λ e. true) attempts never (pos 0) (pos 3)

wait_after_overflow_example : wait_after (pos 0) 58 ≡ pos 0
wait_after_overflow_example = wait_after_overflow 2
