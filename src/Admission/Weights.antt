-- ===== src/Admission/Weights.antt =====
-- What tasks hold, and what a move does to the sums of it.
use diffah.Base.{
  ℕ, ◌+◌, String, Bool, List, ◌∷◌, ◌++◌, ◌≡◌, refl, ap, arith, total, total-append, total-map,
  if◌then◌else◌, ◌==◌,
}
use diffah.Admission.Pool.{
  Phase, waiting, following, at_worker, at_memory, running, done, Task, share, settle,
}

-- The task holds a worker.
abbrev pub works : Task → ℕ
works t = elim (t.phase) [ at_memory ↦ 1 | running ↦ 1 | _ ↦ 0 ]

-- The memory that the task holds.
abbrev pub memory_of : Task → ℕ
memory_of t = elim (t.phase) [ running ↦ t.estimate | _ ↦ 0 ]

-- The task runs the call of the key.
abbrev pub leads : Phase → ℕ
leads at_worker = 1
leads at_memory = 1
leads running = 1
leads _ = 0

abbrev pub lead_of : String → Task → ℕ
lead_of k t = if t.key == k then leads t.phase else 0

abbrev pub flag : Bool → ℕ
flag b = if b then 1 else 0

module _ (w : Task → ℕ) (same : (k : String) (t : Task) → w (share k t) ≡ w t) where
  total-settle : (p : Phase) (k : String) (ts : List Task) → total w (settle p k ts) ≡ total w ts
  total-settle waiting k ts = refl
  total-settle following k ts = refl
  total-settle at_worker k ts = refl
  total-settle at_memory k ts = refl
  total-settle running k ts = refl
  total-settle done k ts = total-map w (share k) ts (same k)

  -- A move changes a total by what it changes for its task.
  pub total-moved :
      (before after ts : List Task) (t : Task) (p : Phase) (k : String)
      → ts ≡ before ++ (t ∷ after)
      → total w (settle p k (before ++ (record t { phase = p } ∷ after))) + w t
        ≡ total w ts + w (record t { phase = p })
  total-moved before after ts t p k e = omega (
    arith,
    total-settle p k (before ++ (record t { phase = p } ∷ after)),
    total-append w before (record t { phase = p } ∷ after),
    total-append w before (t ∷ after),
    ap (total w) e,
  )

pub works-share : (k : String) (t : Task) → works (share k t) ≡ works t
works-share k t = ground arith

pub memory_of-share : (k : String) (t : Task) → memory_of (share k t) ≡ memory_of t
memory_of-share k t = ground arith

pub lead_of-share : (j k : String) (t : Task) → lead_of j (share k t) ≡ lead_of j t
lead_of-share j k t = ground arith
