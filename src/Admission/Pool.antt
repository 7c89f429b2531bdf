-- ===== src/Admission/Pool.antt =====
-- AdmissionPool (internal/admission/admission.go) as steps of its goroutines. The context may be
-- cancelled at any time, which also covers the failure of a task. A result is not kept: the gates do
-- not look at it, and a panic of a task is an error like any other.
use diffah.Base.{
  ℕ, String, Bool, true, false, Option, none, some, List, [], ◌∷◌, ◌++◌, map, ◌≡◌, if◌then◌else◌,
  ◌==◌,
}
use diffah.Base.Int.{ℤ, pos, pos_part, ltb_ℤ}
use diffah.Admission.Gates.{Weighted, Singleflight}

-- Where a submitted task stands: before singleflight, waiting for another call of its key, at
-- workerSem, at memSem with a worker held, in its function, returned.
pub data Phase : Type 0 where
  waiting following at_worker at_memory running done : Phase

pub record Task : Type 0 where
  pub key : String
  pub estimate : ℕ
  pub phase : Phase

-- The clamping of Submit: at least 1, and at most the budget where there is one.
unfoldable pub clamp_estimate : ℤ → ℤ → ℕ
clamp_estimate mem_budget estimate =
    let at_least : ℤ = if ltb_ℤ estimate (pos 1) then pos 1 else estimate in
    if ltb_ℤ (pos 0) mem_budget
    then pos_part (if ltb_ℤ mem_budget at_least then mem_budget else at_least)
    else pos_part at_least

-- What singleflight hands to the callers that wait for the key.
abbrev pub share : String → Task → Task
share k t = elim (t.phase) [
  | following ↦ if t.key == k then record t { phase = done } else t
  | _ ↦ t
]

abbrev pub settle : Phase → String → List Task → List Task
settle done k ts = map (share k) ts
settle _ k ts = ts

module _ (sem : Weighted) (sf : Singleflight) where
  open sem use {Sem, new_weighted, acquire, release}
  open sf use {Group, new_group, in_flight, enter, leave}

  pub record Gates : Type 0 where
    pub worker_sem : Sem
    pub mem_sem : Option Sem
    pub flight : Group
    pub cancelled : Bool

  pub record Pool : Type 0 where
    pub gates : Gates
    pub mem_budget : ℤ
    pub tasks : List Task

  -- The worker count of NewAdmissionPool, at least 1.
  unfoldable pub worker_count : ℤ → ℕ
  worker_count workers = if ltb_ℤ workers (pos 1) then 1 else pos_part workers

  -- NewAdmissionPool
  unfoldable pub new_admission_pool : ℤ → ℤ → Pool
  unfolding worker_count
  new_admission_pool workers memory_budget = record {
    gates = record {
      worker_sem = new_weighted (worker_count workers);
      mem_sem =
          (if ltb_ℤ (pos 0) memory_budget
            then some (new_weighted (pos_part memory_budget))
            else none);
      flight = new_group;
      cancelled = false;
    };
    mem_budget = memory_budget;
    tasks = [];
  }

  -- runWithGates after workerSem: memSem is next, if there is one.
  abbrev pub behind_worker : Option Sem → Phase
  behind_worker none = running
  behind_worker (some _) = at_memory

  -- The deferred memSem.Release.
  abbrev pub release_memory : Option Sem → ℕ → Option Sem
  release_memory none k = none
  release_memory (some m) k = some (release m k)

  -- One step of a task: sf.Do and runWithGates.
  pub data Move (g : Gates) (t : Task) : Gates → Phase → Type 0 where
    lead :
        t.phase ≡ waiting
        → in_flight t.key g.flight ≡ false
        → Move g t (record g { flight = enter t.key g.flight }) at_worker
    follow : t.phase ≡ waiting → in_flight t.key g.flight ≡ true → Move g t g following
    get_worker :
        {w : Sem}
        → t.phase ≡ at_worker
        → acquire g.worker_sem 1 ≡ some w
        → Move g t (record g { worker_sem = w }) (behind_worker g.mem_sem)
    refuse_worker :
        t.phase ≡ at_worker
        → g.cancelled ≡ true
        → Move g t (record g { flight = leave t.key g.flight }) done
    get_memory :
        {m m' : Sem}
        → t.phase ≡ at_memory
        → g.mem_sem ≡ some m
        → acquire m t.estimate ≡ some m'
        → Move g t (record g { mem_sem = some m' }) running
    refuse_memory :
        t.phase ≡ at_memory
        → g.cancelled ≡ true
        → Move g t
            (record g { worker_sem = release g.worker_sem 1; flight = leave t.key g.flight })
            done
    return :
        t.phase ≡ running
        → Move g t
            (record g {
              worker_sem = release g.worker_sem 1;
              mem_sem = release_memory g.mem_sem t.estimate;
              flight = leave t.key g.flight;
            })
            done

  -- Submit, which never waits, a cancellation, and a move of one task; when a call returns, the callers
  -- that wait for its key return too.
  pub data Step (s : Pool) : Pool → Type 0 where
    submit :
        (key : String) (estimate : ℤ)
        → Step s (record s {
          tasks =
              s.tasks
              ++ record {
                key = key;
                estimate = clamp_estimate s.mem_budget estimate;
                phase = waiting;
              }
                ∷ [];
        })
    cancel : Step s (record s { gates = record (s.gates) { cancelled = true } })
    move :
        (before after : List Task) (t : Task) {g : Gates} {p : Phase}
        → s.tasks ≡ before ++ (t ∷ after)
        → Move s.gates t g p
        → Step s (record s {
          gates = g;
          tasks = settle p t.key (before ++ (record t { phase = p } ∷ after));
        })

  pub data Reach (workers memory_budget : ℤ) : Pool → Type 0 where
    start : Reach workers memory_budget (new_admission_pool workers memory_budget)
    later : {s t : Pool} → Reach workers memory_budget s → Step s t → Reach workers memory_budget t
