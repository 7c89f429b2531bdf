-- ===== src/Progress.antt =====
-- pkg/progress/cappedwriter.go: the callback that reports at most `total` bytes.
pub mod Cap
use diffah.Base.{ℕ, Bool, Option, none, some, List, [], ◌∷◌, if◌then◌else◌}
use diffah.Base.Int.{ℤ, pos, ltb_ℤ, leb_ℤ, ◌-ℤ◌}

-- One call of the callback with what remains: what the sink is told, and what then remains.
unfoldable pub capped_write : ℤ → ℤ → Option ℤ × ℤ
capped_write remaining n =
    if leb_ℤ remaining (pos 0)
    then (none, remaining)
    else let m = if ltb_ℤ remaining n then remaining else n in (some m, remaining -ℤ m)

-- What the sink is told in a run of calls, each with a number of bytes that was read.
pub capped_writes : ℤ → List ℕ → List ℤ
capped_writes remaining [] = []
capped_writes remaining (n ∷ chunks) =
    let (m, remaining') = capped_write remaining (pos n) in
    let rest = capped_writes remaining' chunks in elim m [ none ↦ rest | some k ↦ k ∷ rest ]
