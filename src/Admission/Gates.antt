-- ===== src/Admission/Gates.antt =====
-- golang.org/x/sync, as internal/admission uses it: weighted semaphores and singleflight groups.
use diffah.Base.{ℕ, ◌+◌, ◌≤◌, String, Bool, false, not, ◌&&◌, ◌||◌, Option, some, ◌≡◌, ◌==◌}

-- semaphore.Weighted: `acquire` gives the state after a request is granted, and `none` while the caller
-- waits. A request is granted only within the size, and surely when nothing is held.
pub record Weighted : Type 1 where
  pub Sem : Type 0
  pub new_weighted : ℕ → Sem
  pub size : Sem → ℕ
  pub held : Sem → ℕ
  pub acquire : Sem → ℕ → Option Sem
  pub release : Sem → ℕ → Sem
  pub size-new : (n : ℕ) → size (new_weighted n) ≡ n
  pub held-new : (n : ℕ) → held (new_weighted n) ≡ 0
  pub acquire_granted :
      (s s' : Sem) (k : ℕ)
      → acquire s k ≡ some s'
      → (size s' ≡ size s) × (held s' ≡ held s + k) × (held s' ≤ size s')
  pub acquire_idle :
      (s : Sem) (k : ℕ) → held s ≡ 0 → k ≤ size s → (s' : Sem) × (acquire s k ≡ some s')
  pub release_frees :
      (s : Sem) (k : ℕ)
      → k ≤ held s
      → (size (release s k) ≡ size s) × (held (release s k) + k ≡ held s)

-- singleflight.Group: the keys with a call in flight.
pub record Singleflight : Type 1 where
  pub Group : Type 0
  pub new_group : Group
  pub in_flight : String → Group → Bool
  pub enter : String → Group → Group
  pub leave : String → Group → Group
  pub in_flight-new : (k : String) → in_flight k new_group ≡ false
  pub in_flight-enter :
      (k j : String) (g : Group) → in_flight k (enter j g) ≡ ((j == k) || in_flight k g)
  pub in_flight-leave :
      (k j : String) (g : Group) → in_flight k (leave j g) ≡ (not (j == k) && in_flight k g)
