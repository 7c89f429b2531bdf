-- ===== src/Admission/Invariant/Defs.antt =====
-- The invariant of the pool.
use diffah.Base.{
  ℕ, ◌≤◌, ◌<◌, String, true, Option, none, some, List, ◌≡◌, ◌≢◌, refl, All, total, ◌==◌,
}
use diffah.Base.Int.{ℤ, pos_part}
use diffah.Admission.Gates.{Weighted, Singleflight}
use diffah.Admission.Pool.{following, at_memory, Task, Pool, behind_worker}
use diffah.Admission.Weights.{works, memory_of, lead_of, flag}

module _ (sem : Weighted) (sf : Singleflight) where
  open sem use {Sem, size, held, acquire_granted, release_frees, size-new, held-new}
  open sf use {in_flight, in_flight-new, in_flight-enter, in_flight-leave}

  abbrev pub IsJoined : sf.Group → Task → Type 0
  IsJoined g t = t.phase ≡ following → in_flight t.key g ≡ true

  -- Without a budget no task waits at memSem; with one, the estimates fit it and memSem holds those of
  -- the running tasks.
  abbrev pub MemoryFits : Option Sem → ℤ → List Task → Type 0
  MemoryFits none mem_budget ts = (pos_part mem_budget ≡ 0) × All (λ t. t.phase ≢ at_memory) ts
  MemoryFits (some m) mem_budget ts =
      (0 < pos_part mem_budget)
      × (size m ≡ pos_part mem_budget)
      × (held m ≡ total memory_of ts)
      × (held m ≤ size m)
      × All (λ t. t.estimate ≤ pos_part mem_budget) ts

  pub record Inv (n : ℕ) (s : Pool sem sf) : Type 0 where
    pub worker_size : size s.gates.worker_sem ≡ n
    pub worker_held : held s.gates.worker_sem ≡ total works s.tasks
    pub worker_fits : held s.gates.worker_sem ≤ n
    pub memory : MemoryFits s.gates.mem_sem s.mem_budget s.tasks
    pub one_call : (k : String) → total (lead_of k) s.tasks ≡ flag (in_flight k s.gates.flight)
    pub joined : All (IsJoined s.gates.flight) s.tasks

  pub works-behind_worker :
      (m : Option Sem) (t : Task) → works (record t { phase = behind_worker sem sf m }) ≡ 1
  works-behind_worker none t = refl
  works-behind_worker (some m) t = refl

  pub lead_of-behind_worker :
      (m : Option Sem) (k : String) (t : Task)
      → lead_of k (record t { phase = behind_worker sem sf m }) ≡ flag (t.key == k)
  lead_of-behind_worker none k t = refl
  lead_of-behind_worker (some m) k t = refl
