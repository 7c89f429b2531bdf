-- ===== src/Importer/Invariant.antt =====
-- pkg/importer/invariant.go: the check of the written image against the bundle.
pub mod Match
use diffah.Base.{
  String, Bool, true, false, not, ◌&&◌, Option, none, some, List, [], ◌∷◌, map, if◌then◌else◌, ◌==◌,
}
use diffah.Base.Int.{ℤ, pos, ltb_ℤ, eqb_ℤ}
use diffah.Base.Map.{Map, lookup, insert}
use diffah.Base.Disk.{Disk}
use diffah.Diff.Types.{BlobEntry, ImageEntry, entries}
use diffah.Diff.Errors.{Result, ok, err, ◌>>=◌, ◌>>◌, wrap_err, message, apply_invariant_failed}
use diffah.Exporter.Types.{Digester}
use diffah.Importer.Manifest.{
  LayerRef, ManifestLib, ExtractedBundle, FetchedManifest, read_sidecar_target_layers,
  read_dest_manifest_layers, add_all, digests_not_in,
}

abbrev pub digests : List LayerRef → List String
digests = map (λ (l : LayerRef). l.digest)

-- layerSetDiff
unfoldable pub layer_set_diff : List LayerRef → List LayerRef → List String × List String
layer_set_diff expected actual =
    let want = add_all (digests expected) [] in
    let have = add_all (digests actual) [] in (digests_not_in want have, digests_not_in have want)

-- actualByDigest: the last layer of a digest stays.
abbrev pub sizes_from : List LayerRef → Map ℤ → Map ℤ
sizes_from [] m = m
sizes_from (a ∷ actual) m = sizes_from actual (insert a.digest a.size m)

unfoldable pub want_size : Map BlobEntry → LayerRef → ℤ
want_size blobs e = elim (lookup e.digest blobs) [
  | none ↦ e.size
  | some entry ↦ if ltb_ℤ (pos 0) entry.size then entry.size else e.size
]

check_sizes : Map BlobEntry → Map ℤ → List LayerRef → Result (Unit {0})
check_sizes blobs actual [] = ok tt
check_sizes blobs actual (e ∷ expected) = elim (lookup e.digest actual) [
  | none ↦ check_sizes blobs actual expected
  | some got ↦
      let rest = check_sizes blobs actual expected in
      if not (eqb_ℤ got (want_size blobs e)) then err (message "layer size mismatch") else rest
]

-- verifyPerLayerSize
unfoldable pub verify_per_layer_size :
    List LayerRef → List LayerRef → Map BlobEntry → Result (Unit {0})
unfolding check_sizes
verify_per_layer_size expected actual blobs = check_sizes blobs (sizes_from actual []) expected

is_nil : List String → Bool
is_nil [] = true
is_nil (_ ∷ _) = false

failed_for : String → Result (Unit {0}) → Result (Unit {0})
failed_for name (ok _) = ok tt
failed_for name (err e) = err (apply_invariant_failed name [] [] "layer size mismatch")

-- The comparisons of verifyApplyInvariant, after both manifests have been read.
compare_layers :
    ImageEntry
    → Map BlobEntry
    → List LayerRef × String
    → List LayerRef × String × String
    → Result (Unit {0})
unfolding is_nil failed_for
compare_layers img blobs (expected, expected_type) (actual, actual_type, actual_digest) =
    let (missing, unexpected) = layer_set_diff expected actual in
    if not (is_nil missing && is_nil unexpected)
    then err (apply_invariant_failed img.name missing unexpected "layer set mismatch")
    else (do
      failed_for img.name (verify_per_layer_size expected actual blobs)
      if expected_type == actual_type && not (actual_digest == img.target.manifest_digest)
          then err (apply_invariant_failed img.name [] [] "manifest digest mismatch")
          else ok tt)

-- verifyApplyInvariant; `dest` is the manifest that the destination answers with.
unfoldable pub verify_apply_invariant :
    ManifestLib
    → Digester
    → ImageEntry
    → ExtractedBundle
    → FetchedManifest
    → Disk
    → Result (Unit {0})
unfolding compare_layers
verify_apply_invariant lib dig img bundle dest disk = do
  expected ←
      wrap_err "invariant: read sidecar target manifest"
        (read_sidecar_target_layers lib dig bundle img disk)
  actual ← wrap_err "invariant: read dest manifest" (read_dest_manifest_layers lib dig dest)
  compare_layers img (entries bundle.sidecar.blobs) expected actual
