-- ===== src/Admission/Progress.antt =====
-- No task waits for ever: the pool always gets on, and its tasks come to an end.
use diffah.Base.{
  ℕ, zero, suc, ◌≤◌, ◌<◌, String, Option, none, some, List, [], ◌∷◌, ◌++◌, map, ◌≡◌, ◌≢◌, refl, ap,
  subst, arith, All, All-split, total, total-append, leb, ◌⊎◌, inl, inr, Bool-cases,
}
use diffah.Base.Int.{ℤ, pos_part}
use diffah.Admission.Gates.{Weighted, Singleflight}
use diffah.Admission.Pool.{
  Phase, waiting, following, at_worker, at_memory, running, done, Task, share, settle, Gates, Pool,
  worker_count, behind_worker, Move, lead, follow, get_worker, refuse_worker, get_memory,
  refuse_memory, return, move, Reach,
}
use diffah.Admission.Weights.{works, memory_of, lead_of}
use diffah.Admission.Invariant.{IsJoined, Inv, Step-Inv, MemoryFits, Reach-Inv}

-- A bound on the moves that a task has left.
abbrev rank : Task → ℕ
rank t = elim (t.phase) [
  | waiting ↦ 4
  | at_worker ↦ 3
  | at_memory ↦ 2
  | following ↦ 1
  | running ↦ 1
  | done ↦ 0
]

abbrev pub moves_left : List Task → ℕ
moves_left = total rank

moves_left-share : (k : String) (ts : List Task) → moves_left (map (share k) ts) ≤ moves_left ts
moves_left-share k [] = omega arith
moves_left-share k (t ∷ ts) = ground (arith, moves_left-share k ts)

moves_left-settle :
    (p : Phase) (k : String) (ts : List Task) → moves_left (settle p k ts) ≤ moves_left ts
moves_left-settle waiting k ts = omega arith
moves_left-settle following k ts = omega arith
moves_left-settle at_worker k ts = omega arith
moves_left-settle at_memory k ts = omega arith
moves_left-settle running k ts = omega arith
moves_left-settle done k ts = moves_left-share k ts

-- A task that weighs something is in the list.
find :
    (w : Task → ℕ) (ts : List Task)
    → 1 ≤ total w ts
    → (before after : List Task) × (t : Task) × (ts ≡ before ++ (t ∷ after)) × (1 ≤ w t)
find w [] h = absurd (omega arith)
find w (t ∷ ts) h = elim (Bool-cases (leb 1 (w t))) [
  | inl heavy ↦ ([], ts, t, refl, ground arith)
  | inr light ↦
      let (before, after, x, e, heavy) = find w ts (ground arith) in
      (t ∷ before, after, x, ap (◌∷◌ t) e, heavy)
]

all_done : (ts : List Task) → moves_left ts ≡ 0 → All (λ t. t.phase ≡ done) ts
all_done [] h = tt
all_done (t ∷ ts) h = (ground arith, all_done ts (omega arith))

module _ (sem : Weighted) (sf : Singleflight) where
  open sem use {Sem, size, held, acquire_idle}
  open sf use {in_flight}

  rank-behind_worker :
      (m : Option Sem) (t : Task) → rank (record t { phase = behind_worker sem sf m }) ≤ 2
  rank-behind_worker none t = omega arith
  rank-behind_worker (some m) t = omega arith

  Move-rank :
      {g : Gates sem sf} {t : Task} {g' : Gates sem sf} {p : Phase}
      → Move sem sf g t g' p
      → rank (record t { phase = p }) < rank t
  Move-rank (lead h free) = ground arith
  Move-rank (follow h busy) = ground arith
  Move-rank {g} {t = t} (get_worker h q) = ground (arith, rank-behind_worker g.mem_sem t)
  Move-rank (refuse_worker h c) = ground arith
  Move-rank (get_memory h q r) = ground arith
  Move-rank (refuse_memory h c) = ground arith
  Move-rank (return h) = ground arith

  -- What a move makes of the pool.
  abbrev pub after_move :
      Pool sem sf → Gates sem sf → List Task → Task → Phase → List Task → Pool sem sf
  after_move s g before t p after = record s {
    gates = g;
    tasks = settle p t.key (before ++ (record t { phase = p } ∷ after));
  }

  -- Moves of tasks up to a state, one after the other, with their number.
  pub data Runs (end : Pool sem sf) : ℕ → Pool sem sf → Type 0 where
    here : Runs end 0 end
    next :
        {n : ℕ} {s : Pool sem sf} (before after : List Task) (t : Task) {g : Gates sem sf}
        {p : Phase}
        → s.tasks ≡ before ++ (t ∷ after)
        → Move sem sf s.gates t g p
        → Runs end n (after_move s g before t p after)
        → Runs end (suc n) s

  Move-moves_left :
      (s : Pool sem sf) (before after : List Task) (t : Task) {g : Gates sem sf} {p : Phase}
      → s.tasks ≡ before ++ (t ∷ after)
      → Move sem sf s.gates t g p
      → moves_left (after_move s g before t p after).tasks < moves_left s.tasks
  Move-moves_left s before after t {p = p} e mv = omega (
    arith,
    Move-rank mv,
    moves_left-settle p t.key (before ++ (record t { phase = p } ∷ after)),
    total-append rank before (record t { phase = p } ∷ after),
    total-append rank before (t ∷ after),
    ap moves_left e,
  )

  -- A task of the pool can move.
  pub record CanMove (s : Pool sem sf) : Type 0 where
    before : List Task
    after : List Task
    task : Task
    gates : Gates sem sf
    phase : Phase
    split : s.tasks ≡ before ++ (task ∷ after)
    moves : Move sem sf s.gates task gates phase

  module _ {n : ℕ} {s : Pool sem sf} (inv : Inv sem sf n s) where
    can :
        (before after : List Task) (t : Task) {g : Gates sem sf} {p : Phase}
        → s.tasks ≡ before ++ (t ∷ after)
        → Move sem sf s.gates t g p
        → CanMove s
    can before after t e mv = record {
      before = before;
      after = after;
      task = t;
      gates = _;
      phase = _;
      split = e;
      moves = mv;
    }

    running_moves :
        (before after : List Task) (t : Task)
        → s.tasks ≡ before ++ (t ∷ after)
        → t.phase ≡ running
        → CanMove s
    running_moves before after t e h = can before after t e (return h)

    -- A task at memSem is granted its memory, or another one runs.
    at_memory_moves :
        (m : Option Sem) (before after : List Task) (t : Task)
        → s.gates.mem_sem ≡ m
        → MemoryFits sem sf m s.mem_budget s.tasks
        → s.tasks ≡ before ++ (t ∷ after)
        → t.phase ≡ at_memory
        → CanMove s
    at_memory_moves none before after t q (off, unused) e h =
        absurd
          ((All-split _ before (t ∷ after) (subst (All (λ x. x.phase ≢ at_memory)) e unused)).1.0 h)
    at_memory_moves (some m) before after t q (on, sized, holds, fits, small) e h =
        elim (Bool-cases (leb 1 (held m))) [
          | inl used ↦
              let (b, a, x, split, runs) = find memory_of s.tasks (ground (arith, holds)) in
              running_moves b a x split (is_running x runs)
          | inr idle ↦
              let within =
                (All-split _ before (t ∷ after)
                  (subst (All (λ x. x.estimate ≤ pos_part s.mem_budget)) e small)).1.0 in
              let (m', granted) =
                acquire_idle m t.estimate (ground arith) (omega (arith, within, sized)) in
              can before after t e (get_memory h q granted)
        ]
      where
        is_running : (x : Task) → 1 ≤ memory_of x → x.phase ≡ running
        is_running x k = ground arith

    -- If a task holds a worker, a task can move.
    holder_moves :
        (before after : List Task) (t : Task)
        → s.tasks ≡ before ++ (t ∷ after)
        → 1 ≤ works t
        → CanMove s
    holder_moves before after t e h = elim (stands) [
      | inl k ↦ at_memory_moves s.gates.mem_sem before after t refl inv.memory e k
      | inr k ↦ running_moves before after t e k
    ]
      where
        stands : (t.phase ≡ at_memory) ⊎ (t.phase ≡ running)
        stands = ground arith

    -- A task at workerSem is granted a worker, or another one holds it.
    at_worker_moves :
        (before after : List Task) (t : Task)
        → 1 ≤ n
        → s.tasks ≡ before ++ (t ∷ after)
        → t.phase ≡ at_worker
        → CanMove s
    at_worker_moves before after t some_worker e h =
        elim (Bool-cases (leb 1 (held s.gates.worker_sem))) [
          | inl used ↦
              let (b, a, x, split, k) = find works s.tasks (ground (arith, inv.worker_held)) in
              holder_moves b a x split k
          | inr idle ↦
              let (w, granted) =
                acquire_idle s.gates.worker_sem 1 (ground arith)
                  (omega (arith, inv.worker_size, some_worker)) in
              can before after t e (get_worker h granted)
        ]

    leader_moves :
        (before after : List Task) (t : Task) (k : String)
        → 1 ≤ n
        → s.tasks ≡ before ++ (t ∷ after)
        → 1 ≤ lead_of k t
        → CanMove s
    leader_moves before after t k some_worker e h = elim (stands) [
      | inl q ↦ at_worker_moves before after t some_worker e q
      | inr q ↦ holder_moves before after t e q
    ]
      where
        stands : (t.phase ≡ at_worker) ⊎ (1 ≤ works t)
        stands = ground arith

    following_moves :
        (before after : List Task) (t : Task)
        → 1 ≤ n
        → s.tasks ≡ before ++ (t ∷ after)
        → t.phase ≡ following
        → CanMove s
    following_moves before after t some_worker e h =
        let called =
          (All-split _ before (t ∷ after)
              (subst (All (IsJoined sem sf s.gates.flight)) e inv.joined)).1.0
            h in
        let (b, a, x, split, k) =
          find (lead_of t.key) s.tasks (ground (arith, inv.one_call t.key, called)) in
        leader_moves b a x t.key some_worker split k

    waiting_moves :
        (before after : List Task) (t : Task)
        → s.tasks ≡ before ++ (t ∷ after)
        → t.phase ≡ waiting
        → CanMove s
    waiting_moves before after t e h = elim (Bool-cases (in_flight t.key s.gates.flight)) [
      | inl busy ↦ can before after t e (follow h busy)
      | inr free ↦ can before after t e (lead h free)
    ]

    task_moves :
        (p : Phase) (before after : List Task) (t : Task)
        → 1 ≤ n
        → s.tasks ≡ before ++ (t ∷ after)
        → t.phase ≡ p
        → p ≢ done
        → CanMove s
    task_moves waiting before after t some_worker e h u = waiting_moves before after t e h
    task_moves following before after t some_worker e h u =
        following_moves before after t some_worker e h
    task_moves at_worker before after t some_worker e h u =
        at_worker_moves before after t some_worker e h
    task_moves at_memory before after t some_worker e h u =
        at_memory_moves s.gates.mem_sem before after t refl inv.memory e h
    task_moves running before after t some_worker e h u = running_moves before after t e h
    task_moves done before after t some_worker e h u = absurd (u refl)

    pub pool_moves : 1 ≤ n → 1 ≤ moves_left s.tasks → CanMove s
    pool_moves some_worker h =
        let (before, after, t, e, k) = find rank s.tasks h in
        task_moves t.phase before after t some_worker e refl (unfinished t k)
      where
        unfinished : (t : Task) → 1 ≤ rank t → t.phase ≢ done
        unfinished t k q = ground arith

  -- All tasks return after some moves.
  abbrev pub Drains : Pool sem sf → Type 0
  Drains s = (end : Pool sem sf) × (k : ℕ) × Runs end k s × All (λ t. t.phase ≡ done) end.tasks

  Drains-step :
      (fuel n : ℕ) (s : Pool sem sf)
      → moves_left s.tasks ≤ suc fuel
      → Inv sem sf n s
      → ((s' : Pool sem sf) → moves_left s'.tasks ≤ fuel → Inv sem sf n s' → Drains s')
      → CanMove s
      → Drains s
  Drains-step fuel n s h inv later c =
      let fewer = Move-moves_left s c.before c.after c.task c.split c.moves in
      let (end, k, runs, returned) =
        later (after_move s c.gates c.before c.task c.phase c.after) (omega (arith, fewer, h))
          (Step-Inv sem sf (move c.before c.after c.task c.split c.moves) inv) in
      (end, suc k, next c.before c.after c.task c.split c.moves runs, returned)

  drains :
      (fuel n : ℕ) (s : Pool sem sf) → moves_left s.tasks ≤ fuel → 1 ≤ n → Inv sem sf n s → Drains s
  drains zero n s h some_worker inv = (s, 0, here, all_done s.tasks (omega arith))
  drains (suc fuel) n s h some_worker inv = elim (Bool-cases (leb 1 (moves_left s.tasks))) [
    | inr over ↦ (s, 0, here, all_done s.tasks (ground arith))
    | inl on ↦
        Drains-step fuel n s h inv (λ s' le i. drains fuel n s' le some_worker i)
          (pool_moves inv some_worker (ground arith))
  ]

  one_worker : (workers : ℤ) → 1 ≤ worker_count sem sf workers
  unfolding worker_count
  one_worker workers = ground arith

  -- The pool cannot get stuck: from every state that it can reach, also after a cancellation, there are
  -- moves after which all tasks have returned, if the functions that run return.
  pub Reach-Drains :
      {workers memory_budget : ℤ} {s : Pool sem sf}
      → Reach sem sf workers memory_budget s
      → Drains s
  Reach-Drains {workers} {s = s} r =
      drains (moves_left s.tasks) (worker_count sem sf workers) s (omega arith) (one_worker workers)
        (Reach-Inv sem sf r)
