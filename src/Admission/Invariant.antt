-- ===== src/Admission/Invariant.antt =====
-- What the semaphores and the calls in flight have to do with the tasks, in every reachable state.
mod Defs
mod Moves
pub use Defs.{IsJoined, MemoryFits, Inv}
use diffah.Base.{
  ℕ, suc, ◌+◌, ◌≤◌, ◌<◌, String, Bool, true, false, not, ◌&&◌, ◌||◌, Option, none, some, List, [],
  ◌∷◌, ◌++◌, map, ◌≡◌, ◌≢◌, refl, sym, ap, subst, ◌∙◌, arith, All, All-append, All-split,
  All-weaken, All-map, total, total-append, total-map, if◌then◌else◌, ◌==◌, eq_iff, Bool-cases, inl,
  inr,
}
use diffah.Base.Int.{ℤ, pos, pos_part, ltb_ℤ, ◌<ℤ◌}
use diffah.Admission.Gates.{Weighted, Singleflight}
use diffah.Admission.Pool.{
  Phase, waiting, following, at_worker, at_memory, running, done, Task, clamp_estimate, share,
  settle, Gates, Pool, worker_count, new_admission_pool, behind_worker, release_memory, Move, lead,
  follow, get_worker, refuse_worker, get_memory, refuse_memory, return, Step, submit, cancel, move,
  Reach, start, later,
}
use diffah.Admission.Weights.{
  works, memory_of, leads, lead_of, flag, total-moved, works-share, memory_of-share, lead_of-share,
}
use diffah.Admission.Invariant.Moves.{Move-workers, Move-memory, Move-calls, Move-IsJoined}

module _ (sem : Weighted) (sf : Singleflight) where
  open sem use {Sem, size, held, acquire_granted, release_frees, size-new, held-new}
  open sf use {in_flight, in_flight-new, in_flight-enter, in_flight-leave}

  submitted : Pool sem sf → String → ℤ → Task
  submitted s key estimate = record {
    key = key;
    estimate = clamp_estimate s.mem_budget estimate;
    phase = waiting;
  }

  clamp_estimate-le :
      (mem_budget estimate : ℤ)
      → 0 < pos_part mem_budget
      → clamp_estimate mem_budget estimate ≤ pos_part mem_budget
  unfolding clamp_estimate
  clamp_estimate-le mem_budget estimate h = ground arith

  submit_memory :
      (m : Option Sem) (s : Pool sem sf) (key : String) (estimate : ℤ)
      → MemoryFits sem sf m s.mem_budget s.tasks
      → MemoryFits sem sf m s.mem_budget (s.tasks ++ submitted s key estimate ∷ [])
  unfolding submitted
  submit_memory none s key estimate (off, h) =
      (off, All-append _ s.tasks (submitted s key estimate ∷ []) h ((λ q. cc), tt))
  submit_memory (some m) s key estimate (on, sized, holds, fits, small) = (
    on,
    sized,
    omega (arith, holds, total-append memory_of s.tasks (submitted s key estimate ∷ [])),
    fits,
    All-append _ s.tasks (submitted s key estimate ∷ []) small
        (clamp_estimate-le s.mem_budget estimate on, tt),
  )

  -- Every step keeps the invariant.
  pub Step-Inv : {n : ℕ} {s s' : Pool sem sf} → Step sem sf s s' → Inv sem sf n s → Inv sem sf n s'
  unfolding submitted
  Step-Inv {s} (submit key estimate) inv = record {
    worker_size = inv.worker_size;
    worker_held =
        omega (arith, inv.worker_held, total-append works s.tasks (submitted s key estimate ∷ []));
    worker_fits = inv.worker_fits;
    memory = submit_memory s.gates.mem_sem s key estimate inv.memory;
    one_call = λ k.
        ground
          (arith, inv.one_call k, total-append (lead_of k) s.tasks (submitted s key estimate ∷ []));
    joined = All-append _ s.tasks (submitted s key estimate ∷ []) inv.joined ((λ q. cc), tt);
  }
  Step-Inv cancel inv = record {
    worker_size = inv.worker_size;
    worker_held = inv.worker_held;
    worker_fits = inv.worker_fits;
    memory = inv.memory;
    one_call = inv.one_call;
    joined = inv.joined;
  }
  Step-Inv (move before after t e mv) inv =
      let (sized, held_all, fits) = Move-workers sem sf inv before after t e mv in
      record {
        worker_size = sized;
        worker_held = held_all;
        worker_fits = fits;
        memory = Move-memory sem sf inv before after t e mv;
        one_call = Move-calls sem sf inv before after t e mv;
        joined = Move-IsJoined sem sf inv before after t e mv;
      }

  new_memory :
      (memory_budget : ℤ)
      → MemoryFits sem sf
          (if ltb_ℤ (pos 0) memory_budget
            then some (sem.new_weighted (pos_part memory_budget))
            else none)
          memory_budget
          []
  new_memory memory_budget = elim (Bool-cases (ltb_ℤ (pos 0) memory_budget)) [
    | inl on ↦
        rw on (
          ground arith,
          size-new _,
          held-new _,
          omega (arith, held-new (pos_part memory_budget)),
          tt,
        )
    | inr off ↦ rw off (ground arith, tt)
  ]

  new_admission_pool-Inv :
      (workers memory_budget : ℤ)
      → Inv sem sf (worker_count sem sf workers) (new_admission_pool sem sf workers memory_budget)
  unfolding new_admission_pool
  new_admission_pool-Inv workers memory_budget = record {
    worker_size = size-new _;
    worker_held = held-new _;
    worker_fits = omega (arith, held-new (worker_count sem sf workers));
    memory = new_memory memory_budget;
    one_call = λ k. rw (in_flight-new k) refl;
    joined = tt;
  }

  pub Reach-Inv :
      {workers memory_budget : ℤ} {s : Pool sem sf}
      → Reach sem sf workers memory_budget s
      → Inv sem sf (worker_count sem sf workers) s
  Reach-Inv {workers} {memory_budget} start = new_admission_pool-Inv workers memory_budget
  Reach-Inv (later r st) = Step-Inv st (Reach-Inv r)

  pub Reach-budget :
      {workers memory_budget : ℤ} {s : Pool sem sf}
      → Reach sem sf workers memory_budget s
      → s.mem_budget ≡ memory_budget
  unfolding new_admission_pool
  Reach-budget start = refl
  Reach-budget (later r (submit key estimate)) = Reach-budget r
  Reach-budget (later r cancel) = Reach-budget r
  Reach-budget (later r (move before after t e mv)) = Reach-budget r

  MemoryFits-bound :
      (m : Option Sem) (mem_budget : ℤ) (ts : List Task)
      → MemoryFits sem sf m mem_budget ts
      → 0 < pos_part mem_budget
      → total memory_of ts ≤ pos_part mem_budget
  MemoryFits-bound none mem_budget ts (off, h) on = omega arith
  MemoryFits-bound (some m) mem_budget ts (_, sized, holds, fits, small) on =
      omega (arith, sized, holds, fits)

  -- In every state that the pool can reach: at most as many tasks hold a worker as there are workers
  -- (one, where fewer were asked for); with a budget, the estimates of the running tasks add up to no
  -- more than it; and at most one task of a key is past singleflight and has not returned.
  pub gates_hold :
      {workers memory_budget : ℤ} {s : Pool sem sf}
      → Reach sem sf workers memory_budget s
      → (total works s.tasks ≤ worker_count sem sf workers)
        × (pos 0 <ℤ memory_budget → total memory_of s.tasks ≤ pos_part memory_budget)
        × ((key : String) → total (lead_of key) s.tasks ≤ 1)
  gates_hold {memory_budget} {s} r =
      let inv = Reach-Inv r in
      let budget = Reach-budget r in
      let bound =
        MemoryFits-bound s.gates.mem_sem memory_budget s.tasks
          (subst (λ b. MemoryFits sem sf s.gates.mem_sem b s.tasks) budget inv.memory) in
      (
        omega (arith, inv.worker_held, inv.worker_fits),
        (λ on. bound (omega arith)),
        λ k. ground (arith, inv.one_call k),
      )
