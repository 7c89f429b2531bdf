-- ===== src/Importer/Retry.antt =====
-- pkg/importer/retry.go. The outcome of each attempt is a parameter, and so is the error of a context
-- that ends during the wait after an attempt. A delay counts nanoseconds.
pub mod Bounded
use diffah.Base.{
  ℕ, zero, suc, ◌+◌, ◌*◌, ◌^◌, String, Bool, true, false, Option, none, some, List, [], ◌∷◌,
  if◌then◌else◌, ltb, leb,
}
use diffah.Base.Int.{ℤ, pos, negsuc, pos_part, eqb_ℤ, ltb_ℤ}
use diffah.Diff.Errors.{Error, Result, ok, err}
use Prim.Native.Nat.{◌%◌, ◌-◌}

-- The int64 that a product of int64 wraps round to.
int64 : ℕ → ℤ
int64 n = let m = n % 2 ^ 64 in if ltb m (2 ^ 63) then pos m else negsuc (2 ^ 64 - m - 1)

abbrev pub millisecond : ℕ
millisecond = 1000000

-- maxExponentialBackoff
abbrev pub max_exponential_backoff : ℤ
max_exponential_backoff = pos (30 * 1000 * millisecond)

-- time.Duration(1<<attempt) * 100 * time.Millisecond, on a machine with 64 bits.
shifted : ℕ → ℤ
unfolding int64
shifted attempt = int64 (2 ^ attempt * (100 * millisecond))

-- The wait after an attempt.
unfoldable pub wait_after : ℤ → ℕ → ℤ
unfolding shifted
wait_after delay attempt =
    if eqb_ℤ delay (pos 0)
    then (if ltb_ℤ max_exponential_backoff (shifted attempt)
        then max_exponential_backoff
        else shifted attempt)
    else delay

-- What a call came to, and the waits on the way.
pub record Retried (T : Type 0) : Type 0 where
  pub result : Result T
  pub waits : List ℤ

module _ {T : Type 0} (retryable : Error → Bool) (op : ℕ → Result T) (ended : ℕ → Option Error)
    (delay : ℤ) where
  -- The loop of withRetry at an attempt, with the number of retries that are left.
  retry_from : ℕ → ℕ → Retried T
  retry_from zero attempt = record { result = op attempt; waits = [] }
  retry_from (suc left) attempt =
      let rest = retry_from left (suc attempt) in
      let wait = wait_after delay attempt in
      elim (op attempt) [
        | ok v ↦ record { result = ok v; waits = [] }
        | err e ↦ elim (retryable e) [
          | false ↦ record { result = err e; waits = [] }
          | true ↦ elim (ended attempt) [
            | some c ↦ record { result = err c; waits = wait ∷ [] }
            | none ↦ record { result = rest.result; waits = wait ∷ rest.waits }
          ]
        ]
      ]

  -- withRetry
  unfoldable pub with_retry : ℤ → Retried T
  unfolding retry_from
  with_retry times = retry_from (pos_part times) 0
