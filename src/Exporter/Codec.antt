-- ===== src/Exporter/Codec.antt =====
-- internal/zstdpatch: EncodeStream, EncodeFullStream and DecodeStream over files. The zstd program
-- and the zstd library are a parameter.
pub mod RoundTrip
use diffah.Base.{
  ℕ, String, Bool, true, false, Option, none, some, List, [], ◌∷◌, ltb, length, leb, ◌&&◌,
  if◌then◌else◌,
}
use diffah.Base.Int.{ℤ, pos}
use diffah.Base.Map.{lookup, insert, remove}
use diffah.Base.Disk.{Bytes, Disk, byte_size}
use diffah.Diff.Errors.{Result, ok, err, ◌>>=◌, message}

pub record EncodeOpts : Type 0 where
  pub level : ℤ
  pub window_log : ℤ

-- `zstd --patch-from=REF TARGET`, `zstd -d --patch-from=REF PATCH`, the length of a plain encoding,
-- and the frame of an empty file. A reference that is not on disk is `none`.
pub record Zstd : Type 0 where
  pub encode : EncodeOpts → Option Bytes → Bytes → Result Bytes
  pub decode : Option Bytes → Bytes → Result Bytes
  pub full_size : EncodeOpts → Bytes → Result ℤ
  pub empty_frame : Bytes

eq_bytes : Bytes → Bytes → Bool
eq_bytes [] [] = true
eq_bytes (x ∷ xs) (y ∷ ys) = leb x y && leb y x && eq_bytes xs ys
eq_bytes _ _ = false

-- The patch for a target that is on disk.
unfoldable pub patch_bytes : Zstd → EncodeOpts → Option Bytes → Bytes → Result Bytes
patch_bytes zstd opts ref [] = ok zstd.empty_frame
patch_bytes zstd opts ref (x ∷ xs) = zstd.encode opts ref (x ∷ xs)

write_patch : Result Bytes → String → Disk → Result ℤ × Disk
write_patch (ok p) out_path disk = (ok (byte_size p), insert out_path p disk)
write_patch (err e) out_path disk = (err e, remove out_path disk)

-- EncodeStream: the length of the patch, which is then at `out_path`.
unfoldable pub encode_stream : Zstd → EncodeOpts → String → String → String → Disk → Result ℤ × Disk
unfolding write_patch
encode_stream zstd opts ref_path target_path out_path disk = elim (lookup target_path disk) [
  | none ↦ (err (message "zstdpatch: stat target"), disk)
  | some target ↦ write_patch (patch_bytes zstd opts (lookup ref_path disk) target) out_path disk
]

-- EncodeFullStream into io.Discard: only the length.
unfoldable pub encode_full_stream : Zstd → EncodeOpts → String → Disk → Result ℤ
encode_full_stream zstd opts target_path disk = elim (lookup target_path disk) [
  | none ↦ err (message "zstdpatch: open target")
  | some target ↦ zstd.full_size opts target
]

-- What DecodeStream makes of a patch.
unfoldable pub unpatch : Zstd → Option Bytes → Bytes → Result Bytes
unfolding eq_bytes
unpatch zstd ref p = if eq_bytes p zstd.empty_frame then ok [] else zstd.decode ref p

unfoldable pub decode_stream : Zstd → String → String → String → Disk → Result ℤ × Disk
unfolding write_patch
decode_stream zstd ref_path patch_path out_path disk = elim (lookup patch_path disk) [
  | none ↦ (err (message "zstdpatch: stat patch"), disk)
  | some p ↦ write_patch (unpatch zstd (lookup ref_path disk) p) out_path disk
]
