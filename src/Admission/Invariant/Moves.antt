-- ===== src/Admission/Invariant/Moves.antt =====
-- A move keeps each field of the invariant.
use diffah.Base.{
  ℕ, ◌+◌, ◌≤◌, String, not, ◌&&◌, Option, none, some, List, ◌∷◌, ◌++◌, ◌≡◌, ◌≢◌, refl, subst, ◌∙◌,
  arith, All, All-append, All-split, All-weaken, All-map, total, ◌==◌, eq_iff,
}
use diffah.Base.Int.{pos_part}
use diffah.Admission.Gates.{Weighted, Singleflight}
use diffah.Admission.Pool.{
  Phase, waiting, following, at_worker, at_memory, running, done, Task, share, settle, Gates, Pool,
  behind_worker, release_memory, Move, lead, follow, get_worker, refuse_worker, get_memory,
  refuse_memory, return,
}
use diffah.Admission.Weights.{
  works, memory_of, lead_of, flag, total-moved, works-share, memory_of-share, lead_of-share,
}
use diffah.Admission.Invariant.Defs.{
  IsJoined, MemoryFits, Inv, works-behind_worker, lead_of-behind_worker,
}

module _ (sem : Weighted) (sf : Singleflight) where
  open sem use {Sem, size, held, acquire_granted, release_frees, size-new, held-new}
  open sf use {in_flight, in_flight-new, in_flight-enter, in_flight-leave}

  module _ {n : ℕ} {s : Pool sem sf} (inv : Inv sem sf n s) (before after : List Task) (t : Task)
      (e : s.tasks ≡ before ++ (t ∷ after)) where
    abbrev pub moved : Phase → List Task
    moved p = settle p t.key (before ++ (record t { phase = p } ∷ after))

    works-moved :
        (p : Phase)
        → total works (moved p) + works t ≡ total works s.tasks + works (record t { phase = p })
    works-moved p = total-moved works works-share before after s.tasks t p t.key e

    memory_moved :
        (p : Phase)
        → total memory_of (moved p) + memory_of t
          ≡ total memory_of s.tasks + memory_of (record t { phase = p })
    memory_moved p = total-moved memory_of memory_of-share before after s.tasks t p t.key e

    lead_moved :
        (k : String) (p : Phase)
        → total (lead_of k) (moved p) + lead_of k t
          ≡ total (lead_of k) s.tasks + lead_of k (record t { phase = p })
    lead_moved k p = total-moved (lead_of k) (lead_of-share k) before after s.tasks t p t.key e

    abbrev pub WorkersFit : Gates sem sf → Phase → Type 0
    WorkersFit g p =
        (size g.worker_sem ≡ n)
        × (held g.worker_sem ≡ total works (moved p))
        × (held g.worker_sem ≤ n)

    pub Move-workers : {g : Gates sem sf} {p : Phase} → Move sem sf s.gates t g p → WorkersFit g p
    Move-workers (lead h free) =
        ground (arith, inv.worker_size, inv.worker_held, inv.worker_fits, works-moved at_worker)
    Move-workers (follow h busy) =
        ground (arith, inv.worker_size, inv.worker_held, inv.worker_fits, works-moved following)
    Move-workers (get_worker {w} h q) = ground (
      arith,
      inv.worker_size,
      inv.worker_held,
      works-behind_worker sem sf s.gates.mem_sem t,
      works-moved (behind_worker sem sf s.gates.mem_sem),
      acquire_granted s.gates.worker_sem w 1,
    )
    Move-workers (refuse_worker h c) =
        ground (arith, inv.worker_size, inv.worker_held, inv.worker_fits, works-moved done)
    Move-workers (get_memory h q r) =
        ground (arith, inv.worker_size, inv.worker_held, inv.worker_fits, works-moved running)
    Move-workers (refuse_memory h c) = ground (
      arith,
      inv.worker_size,
      inv.worker_held,
      inv.worker_fits,
      works-moved done,
      release_frees s.gates.worker_sem 1,
    )
    Move-workers (return h) = ground (
      arith,
      inv.worker_size,
      inv.worker_held,
      inv.worker_fits,
      works-moved done,
      release_frees s.gates.worker_sem 1,
    )

    here_and_around : (P : Task → Type 0) → All P s.tasks → All P before × P t × All P after
    here_and_around P h =
        let (front, back) = All-split P before (t ∷ after) (subst (All P) e h) in
        (front, back.0, back.1)

    All-settle :
        (P : Task → Type 0) (p : Phase) (k : String) (ts : List Task)
        → ((x : Task) → P x → P (share k x))
        → All P ts
        → All P (settle p k ts)
    All-settle P waiting k ts f h = h
    All-settle P following k ts f h = h
    All-settle P at_worker k ts f h = h
    All-settle P at_memory k ts f h = h
    All-settle P running k ts f h = h
    All-settle P done k ts f h = All-map P P (share k) ts f h

    All-moved :
        (P : Task → Type 0) (p : Phase)
        → ((x : Task) → P x → P (share t.key x))
        → All P s.tasks
        → (P t → P (record t { phase = p }))
        → All P (moved p)
    All-moved P p f h new =
        let (front, here, back) = here_and_around P h in
        All-settle P p t.key _ f
          (All-append P before (record t { phase = p } ∷ after) front (new here, back))

    -- A move that leaves memSem alone.
    MemoryFits-moved :
        (m : Option Sem) (p : Phase)
        → MemoryFits sem sf m s.mem_budget s.tasks
        → memory_of (record t { phase = p }) ≡ memory_of t
        → (m ≡ none → p ≢ at_memory)
        → MemoryFits sem sf m s.mem_budget (moved p)
    MemoryFits-moved none p (off, h) same open_gate = (
      off,
      All-moved (λ x. x.phase ≢ at_memory) p (λ x k. ground (arith, k)) h (λ _. open_gate refl),
    )
    MemoryFits-moved (some m) p (on, sized, holds, fits, small) same open_gate = (
      on,
      sized,
      omega (arith, holds, memory_moved p, same),
      fits,
      All-moved (λ x. x.estimate ≤ pos_part s.mem_budget) p (λ x k. ground (arith, k)) small
          (λ k. k),
    )

    get_worker_memory :
        (m : Option Sem)
        → t.phase ≡ at_worker
        → MemoryFits sem sf m s.mem_budget s.tasks
        → MemoryFits sem sf m s.mem_budget (moved (behind_worker sem sf m))
    get_worker_memory none h (off, fits) = (
      off,
      All-moved (λ x. x.phase ≢ at_memory) running (λ x k. ground (arith, k)) fits (λ _ q. cc),
    )
    get_worker_memory (some m) h fits =
        MemoryFits-moved (some m) at_memory fits (ground arith) (λ q. absurd (ground arith))

    get_memory_memory :
        (m m' : Sem)
        → t.phase ≡ at_memory
        → sem.acquire m t.estimate ≡ some m'
        → MemoryFits sem sf (some m) s.mem_budget s.tasks
        → MemoryFits sem sf (some m') s.mem_budget (moved running)
    get_memory_memory m m' h q (on, sized, holds, fits, small) =
        let (kept, more, within) = acquire_granted m m' t.estimate q in
        (
          on,
          kept ∙ sized,
          ground (arith, more, holds, memory_moved running),
          within,
          All-moved (λ x. x.estimate ≤ pos_part s.mem_budget) running (λ x k. ground (arith, k))
              small (λ k. k),
        )

    return_memory :
        (m : Option Sem)
        → t.phase ≡ running
        → MemoryFits sem sf m s.mem_budget s.tasks
        → MemoryFits sem sf (release_memory sem sf m t.estimate) s.mem_budget (moved done)
    return_memory none h (off, fits) =
        (off, All-moved (λ x. x.phase ≢ at_memory) done (λ x k. ground (arith, k)) fits (λ _ q. cc))
    return_memory (some m) h (on, sized, holds, fits, small) =
        let enough : t.estimate ≤ held m = ground (arith, holds, memory_moved done) in
        let (kept, less) = release_frees m t.estimate enough in
        (
          on,
          kept ∙ sized,
          ground (arith, less, holds, memory_moved done),
          omega (arith, kept, less, fits),
          All-moved (λ x. x.estimate ≤ pos_part s.mem_budget) done (λ x k. ground (arith, k)) small
              (λ k. k),
        )

    pub Move-memory :
        {g : Gates sem sf} {p : Phase}
        → Move sem sf s.gates t g p
        → MemoryFits sem sf g.mem_sem s.mem_budget (moved p)
    Move-memory (lead h free) =
        MemoryFits-moved s.gates.mem_sem at_worker inv.memory (ground arith) (λ _ q. cc)
    Move-memory (follow h busy) =
        MemoryFits-moved s.gates.mem_sem following inv.memory (ground arith) (λ _ q. cc)
    Move-memory (get_worker h q) = get_worker_memory s.gates.mem_sem h inv.memory
    Move-memory (refuse_worker h c) =
        MemoryFits-moved s.gates.mem_sem done inv.memory (ground arith) (λ _ q. cc)
    Move-memory (get_memory {m} {m'} h q r) =
        get_memory_memory m m' h r
          (subst (λ o. MemoryFits sem sf o s.mem_budget s.tasks) q inv.memory)
    Move-memory (refuse_memory h c) =
        MemoryFits-moved s.gates.mem_sem done inv.memory (ground arith) (λ _ q. cc)
    Move-memory (return h) = return_memory s.gates.mem_sem h inv.memory

    pub Move-calls :
        {g : Gates sem sf} {p : Phase}
        → Move sem sf s.gates t g p
        → (k : String) → total (lead_of k) (moved p) ≡ flag (in_flight k g.flight)
    Move-calls (lead h free) k = ground (
      arith,
      inv.one_call k,
      lead_moved k at_worker,
      in_flight-enter k t.key s.gates.flight,
      eq_iff t.key k,
    )
    Move-calls (follow h busy) k = ground (arith, inv.one_call k, lead_moved k following)
    Move-calls (get_worker h q) k = ground (
      arith,
      inv.one_call k,
      lead_moved k (behind_worker sem sf s.gates.mem_sem),
      lead_of-behind_worker sem sf s.gates.mem_sem k t,
    )
    Move-calls (refuse_worker h c) k = ground (
      arith,
      inv.one_call k,
      lead_moved k done,
      in_flight-leave k t.key s.gates.flight,
      eq_iff t.key k,
    )
    Move-calls (get_memory h q r) k = ground (arith, inv.one_call k, lead_moved k running)
    Move-calls (refuse_memory h c) k = ground (
      arith,
      inv.one_call k,
      lead_moved k done,
      in_flight-leave k t.key s.gates.flight,
      eq_iff t.key k,
    )
    Move-calls (return h) k = ground (
      arith,
      inv.one_call k,
      lead_moved k done,
      in_flight-leave k t.key s.gates.flight,
      eq_iff t.key k,
    )

    -- Every caller that waits still has its call in flight after a move that does not end it.
    IsJoined-more :
        (g : sf.Group) (p : Phase)
        → p ≢ done
        → ((x : Task) → IsJoined sem sf s.gates.flight x → IsJoined sem sf g x)
        → IsJoined sem sf g (record t { phase = p })
        → All (IsJoined sem sf g) (moved p)
    IsJoined-more g p unfinished f new =
        let (front, here, back) = here_and_around (IsJoined sem sf s.gates.flight) inv.joined in
        unsettled p unfinished _ (
          All-append (IsJoined sem sf g) before (record t { phase = p } ∷ after)
            (All-weaken (IsJoined sem sf s.gates.flight) (IsJoined sem sf g) before f front)
            (new, All-weaken (IsJoined sem sf s.gates.flight) (IsJoined sem sf g) after f back))
      where
        unsettled :
            (p : Phase)
            → p ≢ done
            → (ts : List Task) → All (IsJoined sem sf g) ts
            → All (IsJoined sem sf g) (settle p t.key ts)
        unsettled done h ts all = absurd (h refl)
        unsettled waiting h ts all = all
        unsettled following h ts all = all
        unsettled at_worker h ts all = all
        unsettled at_memory h ts all = all
        unsettled running h ts all = all

    IsJoined-shared :
        (g : sf.Group)
        → ((k : String) → in_flight k g ≡ (not (t.key == k) && in_flight k s.gates.flight))
        → All (IsJoined sem sf g) (moved done)
    IsJoined-shared g left =
        let (front, here, back) = here_and_around (IsJoined sem sf s.gates.flight) inv.joined in
        All-map (IsJoined sem sf s.gates.flight) (IsJoined sem sf g) (share t.key)
          (before ++ (record t { phase = done } ∷ after))
          (λ x h q. ground (arith, h, left x.key, eq_iff x.key t.key, eq_iff t.key x.key))
          (All-append (IsJoined sem sf s.gates.flight) before (record t { phase = done } ∷ after)
            front ((λ q. absurd (ground arith)), back))

    behind_worker_waits :
        (m : Option Sem) → (behind_worker sem sf m ≢ done) × (behind_worker sem sf m ≢ following)
    behind_worker_waits none = ((λ q. cc), λ q. cc)
    behind_worker_waits (some m) = ((λ q. cc), λ q. cc)

    pub Move-IsJoined :
        {g : Gates sem sf} {p : Phase}
        → Move sem sf s.gates t g p
        → All (IsJoined sem sf g.flight) (moved p)
    Move-IsJoined (lead h free) =
        IsJoined-more (sf.enter t.key s.gates.flight) at_worker (λ q. cc)
          (λ x k q. ground (arith, in_flight-enter x.key t.key s.gates.flight, k q))
          (λ q. absurd (ground arith))
    Move-IsJoined (follow h busy) =
        IsJoined-more s.gates.flight following (λ q. cc) (λ x k. k) (λ _. busy)
    Move-IsJoined (get_worker {w} h q) =
        let (unfinished, apart) = behind_worker_waits s.gates.mem_sem in
        IsJoined-more s.gates.flight (behind_worker sem sf s.gates.mem_sem) unfinished (λ x k. k)
          (λ k. absurd (apart k))
    Move-IsJoined (refuse_worker h c) =
        IsJoined-shared _ (λ k. in_flight-leave k t.key s.gates.flight)
    Move-IsJoined (get_memory h q r) =
        IsJoined-more s.gates.flight running (λ q. cc) (λ x k. k) (λ q. absurd (ground arith))
    Move-IsJoined (refuse_memory h c) =
        IsJoined-shared _ (λ k. in_flight-leave k t.key s.gates.flight)
    Move-IsJoined (return h) = IsJoined-shared _ (λ k. in_flight-leave k t.key s.gates.flight)
