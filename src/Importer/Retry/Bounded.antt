-- ===== src/Importer/Retry/Bounded.antt =====
-- How often an operation is tried, and how long the waits are.
use Prim.Native.Nat.{◌%◌}
use native.Mathlib.Nat.{pow-suc}
use diffah.Base.{
  ℕ, zero, suc, ◌+◌, ◌*◌, ◌^◌, ◌≤◌, ◌<◌, Bool, true, false, Option, some, [], ◌∷◌, ◌≡◌, refl, sym,
  ap, ◌⊎◌, inl, inr, arith, length, Bool-cases, Option-cases, ◌&&◌,
}
use diffah.Base.Int.{ℤ, pos, pos_part, ◌≤ℤ◌, ◌<ℤ◌, ltb_ℤ, leb_ℤ}
use diffah.Diff.Errors.{Error, Result, ok, err, Result-cases}
use diffah.Importer.Retry.{wait_after, max_exponential_backoff, Retried, retry_from, with_retry}

module _ {T : Type 0} (retryable : Error → Bool) (op : ℕ → Result T) (ended : ℕ → Option Error)
    (delay : ℤ) where
  abbrev retrying : ℕ → ℕ → Retried T
  retrying = retry_from retryable op ended delay

  -- Why the attempt at `n` is the last one, with `left` more allowed.
  abbrev pub IsLast : ℕ → ℕ → Type 0
  IsLast left n =
      (left ≡ 0)
      ⊎ ((v : T) × (op n ≡ ok v))
      ⊎ ((e : Error) × (op n ≡ err e) × (retryable e ≡ false))

  -- `n` attempts in a row, from the given one on, fail with errors that are worth a retry.
  abbrev pub AllFail : ℕ → ℕ → Type 0
  AllFail attempt zero = Unit
  AllFail attempt (suc n) =
      ((e : Error) × (op attempt ≡ err e) × (retryable e ≡ true)) × AllFail (suc attempt) n

  -- The loop from an attempt on, with `left` retries allowed: `retries` waits are made, and either the
  -- attempt after them is the last one, or the context ends in one more wait.
  pub record Stops (attempt left : ℕ) (r : Retried T) : Type 0 where
    pub retries : ℕ
    pub last : ℕ
    pub unused : ℕ
    pub reached : last ≡ attempt + retries
    pub counted : retries + unused ≡ left
    pub failed : AllFail attempt retries
    pub outcome :
        ((r.result ≡ op last) × (length r.waits ≡ retries) × IsLast unused last)
        ⊎ ((c : Error) × (r.result ≡ err c)
            × (length r.waits ≡ suc retries)
            × (ended last ≡ some c)
            × (1 ≤ unused))

  Stops-at :
      (attempt left : ℕ) (r : Result T)
      → r ≡ op attempt
      → IsLast left attempt
      → Stops attempt left (record { result = r; waits = [] })
  Stops-at attempt left r q l = record {
    retries = 0;
    last = attempt;
    unused = left;
    reached = omega arith;
    counted = omega arith;
    failed = tt;
    outcome = inl (q, refl, l);
  }

  Stops-later :
      (attempt left : ℕ) (wait : ℤ) (e : Error) (r : Retried T)
      → op attempt ≡ err e
      → retryable e ≡ true
      → Stops (suc attempt) left r
      → Stops attempt (suc left) (record { result = r.result; waits = wait ∷ r.waits })
  Stops-later attempt left wait e r q again s = record {
    retries = suc s.retries;
    last = s.last;
    unused = s.unused;
    reached = omega (arith, s.reached);
    counted = omega (arith, s.counted);
    failed = ((e, q, again), s.failed);
    outcome = elim (s.outcome) [
      | inl (result, waits, l) ↦ inl (result, ap suc waits, l)
      | inr (c, result, waits, over, room) ↦ inr (c, result, ap suc waits, over, room)
    ];
  }

  retry_from-Stops : (left attempt : ℕ) → Stops attempt left (retrying left attempt)
  unfolding retry_from
  retry_from-Stops zero attempt = Stops-at attempt 0 (op attempt) refl (inl refl)
  retry_from-Stops (suc left) attempt = elim (Result-cases (op attempt)) [
    | inl (v, q) ↦
        rw (retry_from, q) (Stops-at attempt (suc left) (ok v) (sym q) (inr (inl (v, q))))
    | inr (e, q) ↦ elim (Bool-cases (retryable e)) [
      | inr final ↦
          rw (retry_from, q, final)
            (Stops-at attempt (suc left) (err e) (sym q) (inr (inr (e, q, final))))
      | inl again ↦ elim (Option-cases (ended attempt)) [
        | inr (c, over) ↦
            rw (retry_from, q, again, over)
              (record {
                retries = 0;
                last = attempt;
                unused = suc left;
                reached = omega arith;
                counted = omega arith;
                failed = tt;
                outcome = inr (c, refl, refl, over, omega arith);
              })
        | inl on ↦
            rw (retry_from, q, again, on)
              (Stops-later attempt left (wait_after delay attempt) e (retrying left (suc attempt)) q
                again (retry_from-Stops left (suc attempt)))
      ]
    ]
  ]

  -- withRetry ends after at most `times` retries, none if `times` is negative. All attempts before the
  -- last fail with errors that are worth a retry. The result is that of the last attempt, and that one
  -- succeeds, fails for good or was the last one allowed; or the context ended in the wait after it.
  pub with_retry-Stops :
      (times : ℤ) → Stops 0 (pos_part times) (with_retry retryable op ended delay times)
  unfolding with_retry
  with_retry-Stops times = retry_from-Stops (pos_part times) 0

below : ℕ → (ℕ → Bool) → Bool
below zero p = true
below (suc n) p = p n && below n p

below_sound : (n : ℕ) (p : ℕ → Bool) (x : ℕ) → below n p ≡ true → x < n → p x ≡ true
unfolding below
below_sound zero p x h lt = absurd (omega arith)
below_sound (suc n) p x h lt = ground (arith, below_sound n p x)

in_range : ℕ → Bool
in_range a =
    ltb_ℤ (pos 0) (wait_after (pos 0) a) && leb_ℤ (wait_after (pos 0) a) max_exponential_backoff

in_range_table : below 37 in_range ≡ true
unfolding below in_range wait_after
in_range_table = refl

-- Without a fixed delay, the waits after the first 37 attempts are positive and at most 30 seconds.
pub wait_after_bounds :
    (attempt : ℕ)
    → attempt < 37
    → (pos 0 <ℤ wait_after (pos 0) attempt)
      × (wait_after (pos 0) attempt ≤ℤ max_exponential_backoff)
unfolding in_range
wait_after_bounds attempt h = unpack (below_sound 37 in_range attempt in_range_table h)
  where
    unpack :
        in_range attempt ≡ true
        → (pos 0 <ℤ wait_after (pos 0) attempt)
          × (wait_after (pos 0) attempt ≤ℤ max_exponential_backoff)
    unpack q = ground arith

multiple : (k : ℕ) → (q : ℕ) × (2 ^ (k + 56) ≡ q * 2 ^ 56)
multiple zero = (1, refl)
multiple (suc k) =
    let (q, e) = multiple k in
    let next : suc k + 56 ≡ suc (k + 56) = omega arith in
    (2 * q, rw next (omega (arith, e, pow-suc 2 (k + 56))))

-- Without a fixed delay, the product overflows from the 57th attempt on so that there is no wait at
-- all.
pub wait_after_overflow : (k : ℕ) → wait_after (pos 0) (k + 56) ≡ pos 0
unfolding wait_after
wait_after_overflow k =
    let (q, e) = multiple k in
    let wraps : q * 2 ^ 56 * (100 * 1000000) % 2 ^ 64 ≡ 0 = omega arith in rw (e, wraps) refl
