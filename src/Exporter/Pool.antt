-- ===== src/Exporter/Pool.antt =====
-- blobPool of pkg/exporter/pool.go over the files of the work directory, one call at a time. Whether
-- the operating system lets a write or a rename through is the parameter `os`.
pub mod View
pub mod Refinement
use diffah.Base.{
  ℕ, ◌+◌, String, Bool, true, false, Option, none, some, List, [], ◌∷◌, map, if◌then◌else◌,
  text_ltb,
}
use diffah.Base.Int.{pos}
use diffah.Base.Map.{Map, lookup, has, insert, remove}
use diffah.Base.Disk.{Bytes, Disk, byte_size, join}
use diffah.Base.Sort.{sort}
use diffah.Diff.Types.{BlobRef, BlobEntry, full}
use diffah.Diff.Errors.{Error, Result, ok, err, wrap, external, message}
use diffah.Exporter.Types.{PairPlan, Digester}

pub record BlobPool : Type 0 where
  pub dir : String
  pub spills : Map String
  pub entries : Map BlobEntry
  pub ship_refs : Map ℕ

-- The error that an operation on the file at a path ends with, where it does: writing it whole, renaming
-- a file to it, creating it as a temporary file, syncing and closing it; and what a write that fails
-- leaves at its path, where it gets to create or truncate the file.
pub record Os : Type 0 where
  pub write_error : String → Option Error
  pub rename_error : String → Option Error
  pub create_error : String → Option Error
  pub sync_error : String → Option Error
  pub close_error : String → Option Error
  pub left_behind : String → Option Bytes

unfoldable pub new_blob_pool : String → BlobPool
new_blob_pool dir = record { dir = dir; spills = []; entries = []; ship_refs = [] }

abbrev pub Outcome : Type 0
Outcome = Result (Unit {0}) × BlobPool × Disk

-- p.spills[d] = path; p.entries[d] = e, under the lock.
unfoldable pub register : BlobPool → String → String → BlobEntry → BlobPool
register p d path e = record p { spills = insert d path p.spills; entries = insert d e p.entries }

-- What a write to the path that fails makes of the files.
unfoldable pub half_written : Os → String → Disk → Disk
half_written os path disk = elim (os.left_behind path) [ none ↦ disk | some b ↦ insert path b disk ]

-- addEntryIfAbsent
unfoldable pub add_entry_if_absent :
    Os → Digester → BlobPool → String → Bytes → BlobEntry → Disk → Outcome
add_entry_if_absent os dig p d payload e disk =
    let path = join p.dir (dig.encoded d) in
    if has d p.spills then (ok tt, p, disk) else elim (os.write_error path) [
      | some x ↦ (err (wrap "spill blob" x), p, half_written os path disk)
      | none ↦ (ok tt, register p d path e, insert path payload disk)
    ]

-- addEntryFromPath
unfoldable pub add_entry_from_path :
    Os → Digester → BlobPool → String → String → BlobEntry → Disk → Outcome
add_entry_from_path os dig p d src e disk =
    let dst = join p.dir (dig.encoded d) in
    if has d p.spills then (ok tt, p, remove src disk) else elim (os.rename_error dst) [
      | some x ↦ (err (wrap "adopt blob" x), p, disk)
      | none ↦ elim (lookup src disk) [
        | none ↦ (err (wrap "adopt blob" (message "no such file or directory")), p, disk)
        | some payload ↦ (ok tt, register p d dst e, insert dst payload (remove src disk))
      ]
    ]

unfoldable pub has_blob : BlobPool → String → Bool
has_blob p d = has d p.spills

unfoldable pub ref_count : BlobPool → String → ℕ
ref_count p d = elim (lookup d p.ship_refs) [ none ↦ 0 | some n ↦ n ]

unfoldable pub count_shipped : BlobPool → String → BlobPool
unfolding ref_count
count_shipped p d = record p { ship_refs = insert d (ref_count p d + 1) p.ship_refs }

unfoldable pub sorted_digests : BlobPool → List String
sorted_digests p = sort text_ltb (map (λ (e : String × String). e.0) p.spills)

abbrev pub manifest_entry : PairPlan → BlobEntry
manifest_entry plan = record {
  size = byte_size plan.target_manifest;
  media_type = plan.target_media_type;
  encoding = full;
  codec = "";
  patch_from_digest = "";
  archive_size = byte_size plan.target_manifest;
}

abbrev pub config_entry : PairPlan → BlobEntry
config_entry plan = record {
  size = plan.target_config_desc.size;
  media_type = plan.target_config_desc.media_type;
  encoding = full;
  codec = "";
  patch_from_digest = "";
  archive_size = plan.target_config_desc.size;
}

-- seedManifestAndConfig
unfoldable pub seed_manifest_and_config : Os → Digester → BlobPool → PairPlan → Disk → Outcome
seed_manifest_and_config os dig p plan disk =
    let (r, p', disk') =
      add_entry_if_absent os dig p (dig.from_bytes plan.target_manifest) plan.target_manifest
        (manifest_entry plan) disk in
    elim r [
      | err x ↦ (err x, p', disk')
      | ok _ ↦
          add_entry_if_absent os dig p' plan.target_config_desc.digest plan.target_config_raw
            (config_entry plan) disk'
    ]
