-- ===== src/Base/Disk.antt =====
-- The files under a work directory: a path holds bytes. Whether the operating system lets a write
-- or a rename through is its own choice, a parameter of the operations that may fail.
use Prim.Native.Nat.{ℕ}
use Prim.Native.String.{String, ◌++◌}
use mathlib.Core.List.{List}
use diffah.Base.Int.{ℤ, pos}
use diffah.Base.Lists.{length}
use diffah.Base.Map.{Map}

abbrev pub Bytes : Type 0
Bytes = List ℕ

abbrev pub Disk : Type 0
Disk = Map Bytes

abbrev pub byte_size : Bytes → ℤ
byte_size b = pos (length b)

-- filepath.Join of a clean directory and a clean relative name.
abbrev pub join : String → String → String
join dir name = dir ++ ("/" ++ name)
