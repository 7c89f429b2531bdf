-- ===== src/Exporter/Encode.antt =====
-- pkg/exporter/encode.go: one shipped layer, and all of them with one worker. What is reported to
-- the progress bars and the log is left out.
pub mod Adopt
pub mod Layer
use diffah.Base.{ℕ, String, Bool, true, false, ◌||◌, List, [], ◌∷◌, ltb, if◌then◌else◌, ◌==◌}
use diffah.Base.Int.{ℤ}
use diffah.Base.Map.{Map, remove}
use diffah.Base.Disk.{Bytes, Disk, join}
use diffah.Diff.Types.{BlobRef, BlobEntry, full}
use diffah.Diff.Errors.{Result, ok, err, wrap}
use diffah.Exporter.Types.{PairPlan, Digester}
use diffah.Exporter.Codec.{Zstd}
use diffah.Exporter.Fingerprint.{Fingerprint}
use diffah.Exporter.Mode.{mode_off}
use diffah.Exporter.Planner.{Planner, new_planner, seed_baseline_fingerprints, plan_shipped_top_k}
use diffah.Exporter.Pool.{BlobPool, Os, Outcome, add_entry_from_path, has_blob, ref_count}
use diffah.Exporter.Spool.{Read, spool_blob}

-- What the encoder works with: the operating system, the zstd program, the digests, the fingerprint
-- of the file at a path, the name of the temporary file for a path, and the options that it uses.
pub record Encoder : Type 0 where
  pub os : Os
  pub zstd : Zstd
  pub dig : Digester
  pub fingerprint_of : String → Fingerprint
  pub tmp_of : String → String
  pub mode : String
  pub level : ℤ
  pub window_log : ℤ
  pub candidates : ℤ
  pub targets_dir : String
  pub blobs_dir : String

unfoldable pub full_blob_entry : BlobRef → BlobEntry
full_blob_entry s = record {
  size = s.size;
  media_type = s.media_type;
  encoding = full;
  codec = "";
  patch_from_digest = "";
  archive_size = s.size;
}

unfoldable pub blob_entry_from_planner : BlobRef → BlobEntry
blob_entry_from_planner e = record {
  size = e.size;
  media_type = e.media_type;
  encoding = e.encoding;
  codec = e.codec;
  patch_from_digest = e.patch_from_digest;
  archive_size = e.archive_size;
}

-- The end of encodeOneShipped, with the planner's answer.
unfoldable pub adopt_planned :
    Encoder → BlobPool → BlobRef → String → Result (BlobRef × String) × Disk → Outcome
adopt_planned env pool s target_path (err e, disk) =
    add_entry_from_path env.os env.dig pool s.digest target_path (full_blob_entry s) disk
adopt_planned env pool s target_path (ok (entry, path), disk) =
    let (r, pool', disk') =
      add_entry_from_path env.os env.dig pool s.digest path (blob_entry_from_planner entry) disk in
    elim r [
      | err e ↦ (err e, pool', disk')
      | ok _ ↦ (ok tt, pool', if path == target_path then disk' else remove target_path disk')
    ]

-- encodeOneShipped; `source` opens a blob of the target image.
unfoldable pub encode_one_shipped :
    Encoder → (String → Result (List Read)) → Planner → BlobPool → BlobRef → Disk → Outcome
encode_one_shipped env source planner pool s disk =
    let target_path = join env.targets_dir (env.dig.encoded s.digest) in
    let (r, reports, disk') =
      spool_blob env.os (source s.digest) (env.tmp_of target_path) target_path disk in
    elim r [
      | err e ↦ (err (wrap "spool shipped" e), pool, disk')
      | ok _ ↦
          if ltb 1 (ref_count pool s.digest) || env.mode == mode_off
          then add_entry_from_path env.os env.dig pool s.digest target_path (full_blob_entry s)
              disk'
          else adopt_planned env pool s target_path (
              plan_shipped_top_k planner env.zstd env.dig env.fingerprint_of s target_path
                env.blobs_dir env.candidates disk')
    ]

-- The loop of encodeTargets over the shipped layers of a pair, each task run when it is submitted.
pub encode_layers :
    Encoder → (String → Result (List Read)) → Planner → List BlobRef → BlobPool → Disk → Outcome
encode_layers env source planner [] pool disk = (ok tt, pool, disk)
encode_layers env source planner (s ∷ shipped) pool disk =
    if has_blob pool s.digest
    then encode_layers env source planner shipped pool disk
    else let (r, pool', disk') = encode_one_shipped env source planner pool s disk in
      elim r [
        | err e ↦ (err e, pool', disk')
        | ok _ ↦ encode_layers env source planner shipped pool' disk'
      ]

-- encodeTargets, where a plan comes with what opens the blobs of its target image.
pub encode_targets :
    Encoder
    → Map Fingerprint
    → (String → Result String)
    → List (PairPlan × (String → Result (List Read)))
    → BlobPool
    → Disk
    → Outcome
encode_targets env fps read_baseline_path [] pool disk = (ok tt, pool, disk)
encode_targets env fps read_baseline_path ((plan, source) ∷ pairs) pool disk =
    let planner =
      seed_baseline_fingerprints fps
        (new_planner plan.baseline_layer_meta read_baseline_path env.level env.window_log) in
    let (r, pool', disk') = encode_layers env source planner plan.shipped pool disk in
    elim r [
      | err e ↦ (err e, pool', disk')
      | ok _ ↦ encode_targets env fps read_baseline_path pairs pool' disk'
    ]
