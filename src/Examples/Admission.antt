-- ===== src/Examples/Admission.antt =====
-- A pool with one worker and two tasks.
use diffah.Base.{
  subst, Bool-cases, inl, inr, ℕ, ◌+◌, ◌-◌, String, Bool, true, false, not, ◌&&◌, ◌||◌, Option,
  none, some, [], ◌∷◌, ◌≡◌, ◌≤◌, refl, arith, total, leb, if◌then◌else◌, ◌==◌,
}
use diffah.Base.Int.{pos, pos_part, ◌<ℤ◌}
use diffah.Admission.Gates.{Weighted, Singleflight}
use diffah.Admission.Pool.{
  Phase, Gates, waiting, at_worker, at_memory, running, Task, Pool, Reach, start, later, submit,
  move, lead, get_worker, get_memory, new_admission_pool, clamp_estimate, worker_count,
}
use diffah.Admission.Weights.{works, memory_of, lead_of}
use diffah.Admission.Invariant.{gates_hold}
use diffah.Admission.Progress.{Drains, Reach-Drains}

record Counter : Type 0 where
  size : ℕ
  held : ℕ

abbrev granted : Counter → ℕ → Option Counter
granted s k = if leb (s.held + k) s.size then some (record s { held = s.held + k }) else none

granted_fits :
    (s s' : Counter) (k : ℕ)
    → granted s k ≡ some s'
    → (s'.size ≡ s.size) × (s'.held ≡ s.held + k) × (s'.held ≤ s'.size)
granted_fits s s' k q = elim (Bool-cases (leb (s.held + k) s.size)) [
  | inl fits ↦ grown fits (rw fits at q)
  | inr not_now ↦ absurd (clash (rw not_now at q))
]
  where
    clash : ◌≡◌ {A = Option Counter} none (some s') → ⊥
    clash h = cc

    grown :
        leb (s.held + k) s.size ≡ true
        → some (record s { held = s.held + k }) ≡ some s'
        → (s'.size ≡ s.size) × (s'.held ≡ s.held + k) × (s'.held ≤ s'.size)
    grown fits h =
        let same : record s { held = s.held + k } ≡ s' = cc in
        subst (λ (t : Counter). (t.size ≡ s.size) × (t.held ≡ s.held + k) × (t.held ≤ t.size)) same
          (refl, refl, ground arith)

granted_idle :
    (s : Counter) (k : ℕ) → s.held ≡ 0 → k ≤ s.size → (s' : Counter) × (granted s k ≡ some s')
granted_idle s k h le = (record s { held = s.held + k }, ground arith)

-- A request is granted as soon as it fits.
abbrev counters : Weighted
counters = record {
  Sem = Counter;
  new_weighted = λ n. record { size = n; held = 0 };
  size = λ s. s.size;
  held = λ s. s.held;
  acquire = granted;
  release = λ s k. record s { held = s.held - k };
  size-new = λ n. refl;
  held-new = λ n. refl;
  acquire_granted = λ s s' k q. granted_fits s s' k q;
  acquire_idle = granted_idle;
  release_frees = λ s k le. (refl, omega arith);
}

abbrev flights : Singleflight
flights = record {
  Group = String → Bool;
  new_group = λ k. false;
  in_flight = λ k g. g k;
  enter = λ j g k. (j == k) || g k;
  leave = λ j g k. not (j == k) && g k;
  in_flight-new = λ k. refl;
  in_flight-enter = λ k j g. refl;
  in_flight-leave = λ k j g. refl;
}

abbrev fresh : Pool counters flights
fresh = new_admission_pool counters flights (pos 1) (pos 10)

abbrev a_task : Phase → Task
a_task p = record { key = "aa"; estimate = 4; phase = p }

abbrev other : Task
other = record { key = "bb"; estimate = 10; phase = waiting }

abbrev Reached : Pool counters flights → Type 0
Reached = Reach counters flights (pos 1) (pos 10)

-- Two tasks are submitted, the second one with more than the budget, and the first one runs.
abbrev busy : Pool counters flights
busy = record {
  gates = record {
    worker_sem = record { size = 1; held = 1 };
    mem_sem = some (record { size = 10; held = 4 });
    flight = λ k. ("aa" == k) || false;
    cancelled = false;
  };
  mem_budget = pos 10;
  tasks = a_task running ∷ other ∷ [];
}

busy-Reach : Reached busy
unfolding new_admission_pool clamp_estimate worker_count
busy-Reach =
    later
      (later
        (later (later (later start (submit "aa" (pos 4))) (submit "bb" (pos 20)))
          (move [] (other ∷ []) (a_task waiting) refl (lead refl refl)))
        (move [] (other ∷ []) (a_task at_worker) refl (get_worker refl refl)))
      (move [] (other ∷ []) (a_task at_memory) refl (get_memory refl refl refl))

gates_hold_example :
    (total works busy.tasks ≤ worker_count counters flights (pos 1))
    × (pos 0 <ℤ pos 10 → total memory_of busy.tasks ≤ pos_part (pos 10))
    × ((key : String) → total (lead_of key) busy.tasks ≤ 1)
gates_hold_example = gates_hold counters flights busy-Reach

drains_example : Drains counters flights busy
drains_example = Reach-Drains counters flights busy-Reach

abbrev freed : Gates counters flights
freed = record {
  worker_sem = record { size = 1; held = 0 };
  mem_sem = some (record { size = 10; held = 0 });
  flight = λ k. not ("aa" == k) && (("aa" == k) || false);
  cancelled = false;
}
