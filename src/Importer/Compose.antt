-- ===== src/Importer/Compose.antt =====
-- pkg/importer/baselinespool.go and compose.go: the blobs of an image as the image library reads them.
-- `GetBlob` is here opening a blob and reading it to the end; a blob of the baseline source arrives
-- whole or as an error.
pub mod Verified
pub mod Rebuilt
use diffah.Base.{
  String, Bool, true, false, not, ◌||◌, Option, none, some, List, [], ◌∷◌, if◌then◌else◌, ◌==◌,
}
use diffah.Base.Map.{Map, lookup, insert, remove}
use diffah.Base.Disk.{Bytes, Disk, join}
use diffah.Diff.Types.{BlobEntry, Sidecar, full, patch, unknown, entries}
use diffah.Diff.Errors.{
  Error, Result, ok, err, wrap, message, external, missing_patch_source,
  missing_baseline_reuse_layer, baseline_blob_digest_mismatch, shipped_blob_digest_mismatch,
  intra_layer_assembly_mismatch,
}
use diffah.Exporter.Types.{Digester}
use diffah.Exporter.Codec.{Zstd, decode_stream}
use diffah.Exporter.Pool.{Os}
use diffah.Importer.Manifest.{blob_path}

pub record BaselineSpool : Type 0 where
  pub dir : String
  pub entries : Map String

-- bundleImageSource and what it works with. `not_found` is isBlobNotFound, which reads the text of an
-- error; `spool_tmp` and `scratch` are the names that os.CreateTemp makes up for a digest.
pub record BundleSource : Type 0 where
  pub os : Os
  pub dig : Digester
  pub zstd : Zstd
  pub not_found : Error → Bool
  pub spool_tmp : String → String
  pub scratch : String → String
  pub sidecar : Sidecar
  pub blob_dir : String
  pub image_name : String
  pub baseline : String → Result Bytes

unfoldable pub path_for : Digester → BaselineSpool → String → String
path_for dig spool d = join spool.dir (dig.encoded d)

-- spoolOnce, with what the fetch delivers.
unfoldable pub spool_once :
    BundleSource
    → BaselineSpool
    → String
    → Result Bytes
    → Disk
    → Result String × BaselineSpool × Disk
spool_once src spool d (err e) disk = (err e, spool, disk)
spool_once src spool d (ok b) disk =
    let tmp = src.spool_tmp d in
    let dst = path_for src.dig spool d in
    let got = src.dig.digest_as d b in
    elim (src.os.write_error tmp) [
      | some e ↦ (err (wrap "drain spool tmp" e), spool, remove tmp disk)
      | none ↦
          if not (got == d)
          then (err (baseline_blob_digest_mismatch "" d got), spool, remove tmp disk)
          else elim (src.os.rename_error dst) [
            | some e ↦ (err (wrap "rename spool tmp" e), spool, remove tmp disk)
            | none ↦ (
              ok dst,
              record spool { entries = insert d dst spool.entries },
              insert dst b (remove tmp disk),
            )
          ]
    ]

-- GetOrSpool
unfoldable pub get_or_spool :
    BundleSource → BaselineSpool → String → Disk → Result String × BaselineSpool × Disk
get_or_spool src spool d disk = elim (lookup d spool.entries) [
  | some path ↦ (ok path, spool, disk)
  | none ↦ spool_once src spool d (src.baseline d) disk
]

-- A digest mismatch of the spool names no image; it is given the image's name.
with_image : String → Error → Error
with_image name (baseline_blob_digest_mismatch n d got) =
    if n == ""
    then baseline_blob_digest_mismatch name d got
    else baseline_blob_digest_mismatch n d got
with_image name (wrap c e) = wrap c (with_image name e)
with_image name e = e

-- verifyingReadCloser, read to the end.
read_shipped : BundleSource → String → Bytes → Result Bytes
read_shipped src d b =
    let got = src.dig.digest_as d b in
    if got == d then ok b else err (shipped_blob_digest_mismatch src.image_name d got)

read_assembled : BundleSource → String → Bytes → Result Bytes
read_assembled src d b =
    let got = src.dig.digest_as d b in
    if got == d then ok b else err (intra_layer_assembly_mismatch d got)

-- serveFull
unfoldable pub serve_full : BundleSource → String → Disk → Result Bytes
unfolding read_shipped
serve_full src d disk = elim (lookup (blob_path src.dig src.blob_dir d) disk) [
  | none ↦ err (message "open full blob")
  | some b ↦ read_shipped src d b
]

-- The end of servePatch, with the path of the reference; the scratch file is removed on closing.
unfoldable pub assemble : BundleSource → String → String → Disk → Result Bytes × Disk
unfolding read_assembled
assemble src d ref_path disk =
    let (r, disk') =
      decode_stream src.zstd ref_path (blob_path src.dig src.blob_dir d) (src.scratch d) disk in
    elim r [
      | err e ↦ (err (wrap "decode patch" e), remove (src.scratch d) disk')
      | ok n ↦ elim (lookup (src.scratch d) disk') [
        | none ↦ (err (message "open decoded"), remove (src.scratch d) disk')
        | some b ↦ (read_assembled src d b, remove (src.scratch d) disk')
      ]
    ]

-- servePatch
unfoldable pub serve_patch :
    BundleSource → String → BlobEntry → BaselineSpool → Disk → Result Bytes × BaselineSpool × Disk
unfolding with_image
serve_patch src d entry spool disk =
    let (r, spool', disk') = get_or_spool src spool entry.patch_from_digest disk in
    elim r [
      | err e ↦ (
        err (
            if src.not_found e
            then missing_patch_source src.image_name d entry.patch_from_digest
            else wrap "baseline spool" (with_image src.image_name e)),
        spool',
        disk',
      )
      | ok ref_path ↦ let (r', disk'') = assemble src d ref_path disk' in (r', spool', disk'')
    ]

-- A blob that is not shipped: fetchVerifiedBaselineBlob, and what GetBlob makes of its errors.
unfoldable pub serve_baseline :
    BundleSource → String → BaselineSpool → Disk → Result Bytes × BaselineSpool × Disk
unfolding with_image
serve_baseline src d spool disk =
    let (r, spool', disk') = get_or_spool src spool d disk in
    elim r [
      | err e ↦ (
        err (
            if src.not_found e
            then missing_baseline_reuse_layer src.image_name d
            else wrap "baseline serve" (with_image src.image_name e)),
        spool',
        disk',
      )
      | ok path ↦ elim (lookup path disk') [
        | none ↦ (err (wrap "baseline serve" (message "read spool file")), spool', disk')
        | some b ↦ (ok b, spool', disk')
      ]
    ]

-- GetBlob
unfoldable pub get_blob :
    BundleSource → String → BaselineSpool → Disk → Result Bytes × BaselineSpool × Disk
get_blob src d spool disk = elim (lookup d (entries src.sidecar.blobs)) [
  | none ↦ serve_baseline src d spool disk
  | some entry ↦ elim (entry.encoding) [
    | full ↦ (serve_full src d disk, spool, disk)
    | patch ↦ serve_patch src d entry spool disk
    | unknown s ↦ (err (message "unknown encoding"), spool, disk)
  ]
]
