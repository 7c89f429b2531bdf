-- ===== src/Examples/Bundles.antt =====
-- Sidecars, and the checks before and after an image is written.
use diffah.Base.{
  String, false, none, some, List, [], ◌∷◌, ◌≡◌, ◌≢◌, ◌↔◌, refl, sym, arith, eq_iff, ◌==◌, All,
}
use diffah.Base.Int.{pos}
use diffah.Base.Map.{Map}
use diffah.Base.Disk.{Disk}
use diffah.Diff.Types.{BlobEntry, ImageEntry, Sidecar, full, patch}
use diffah.Diff.Errors.{Result, ok, err, message}
use diffah.Diff.Sidecar.{
  Json, marshal, parse_sidecar, validate, validate_images, validate_image, validate_blobs,
  matches_name, validate_blob_entry,
}
use diffah.Diff.Sidecar.Schema.{IsSchemaValid, validate_iff}
use diffah.Diff.Sidecar.RoundTrip.{
  IsFaithful, IsCanonical, parse_sidecar-marshal, parse_sidecar_iff,
}
use diffah.Exporter.Types.{Pair, PairPlan}
use diffah.Exporter.Pool.{BlobPool}
use diffah.Exporter.Assemble.{validate_pairs}
use diffah.Exporter.Assemble.Valid.{IsFreshPairs, validate_pairs_iff}
use diffah.Importer.Manifest.{
  LayerRef, ManifestLib, ExtractedBundle, FetchedManifest, docker_schema2, parse_manifest,
  parse_manifest_layers, read_sidecar_target_layers, read_dest_manifest_layers, blob_path,
}
use diffah.Importer.Invariant.{verify_apply_invariant}
use diffah.Importer.Invariant.Match.{IsMatch, verify_apply_invariant_iff}
use diffah.Importer.Preflight.{ResolvedBaseline, preflight_ok, scan_one_image}
use diffah.Importer.Preflight.Coverage.{Has, IsCovered, scan_one_image-ok_iff}
use diffah.Examples.Fixtures.{two_digests, layer_a}

-- A shipped manifest and a layer shipped as a patch against "bb".
abbrev blobs : Map BlobEntry
blobs =
    (
      "aa",
      record {
        size = pos 100;
        media_type = "layer";
        encoding = patch;
        codec = "zstd-patch";
        patch_from_digest = "bb";
        archive_size = pos 2;
      },
    )
    ∷ (
      "mm",
      record {
        size = pos 2;
        media_type = docker_schema2;
        encoding = full;
        codec = "";
        patch_from_digest = "";
        archive_size = pos 2;
      },
    )
    ∷ []

abbrev image : ImageEntry
image = record {
  name = "app";
  baseline = record {
    manifest_digest = "nn";
    media_type = docker_schema2;
    source_hint = "old.tar";
  };
  target = record { manifest_digest = "mm"; manifest_size = pos 2; media_type = docker_schema2 };
}

abbrev sidecar : Sidecar
sidecar = record {
  version = "v1";
  feature = "bundle";
  tool = "diffah";
  tool_version = "1";
  created_at = 1;
  platform = "linux/amd64";
  blobs = some blobs;
  images = image ∷ [];
}

validate_example : (validate sidecar ≡ ok tt) ↔ IsSchemaValid sidecar
validate_example = validate_iff sidecar

-- A codec that keeps the sidecar as it is.
abbrev same_json : Json
same_json = record { Bytes = Sidecar; marshal_indent = λ s. ok s; unmarshal = λ s. ok s }

same_json-IsFaithful : IsFaithful same_json
same_json-IsFaithful s raw canonical h = sym h

sidecar-IsCanonical : IsCanonical sidecar
sidecar-IsCanonical = (
  ((refl, tt), (tt, tt)),
  (((λ q. ground arith), (λ q. ground arith)), (((λ q. ground arith), (λ q. ground arith)), tt)),
)

parse_sidecar-marshal_example : parse_sidecar same_json sidecar ≡ ok sidecar
unfolding marshal validate validate_images validate_image validate_blobs validate_blob_entry
    matches_name
parse_sidecar-marshal_example =
    parse_sidecar-marshal same_json same_json-IsFaithful sidecar sidecar sidecar-IsCanonical refl
      refl refl

parse_sidecar_example : (parse_sidecar same_json sidecar ≡ ok sidecar) ↔ (
    (◌≡◌ {A = Result Sidecar} (ok sidecar) (ok sidecar))
    × (◌≡◌ {A = String} "bundle" "bundle")
    × (◌≡◌ {A = String} "v1" "v1")
    × IsSchemaValid sidecar)
parse_sidecar_example = parse_sidecar_iff same_json sidecar sidecar

abbrev plan : PairPlan
plan = record {
  name = "app";
  baseline_ref = "oci:old";
  target_manifest = 1 ∷ [];
  target_media_type = docker_schema2;
  target_layer_descs = layer_a ∷ [];
  target_config_raw = [];
  target_config_desc = layer_a;
  baseline_digests = [];
  baseline_manifest = 2 ∷ [];
  baseline_media_type = docker_schema2;
  baseline_layer_meta = [];
  shipped = layer_a ∷ [];
  required = [];
}

abbrev pool : BlobPool
pool = record { dir = "b"; spills = []; entries = blobs; ship_refs = [] }

apart : (x y : String) → (x == y) ≡ false → x ≢ y
apart x y h q = ground (arith, h, eq_iff x y)

abbrev pairs : List Pair
pairs = record { name = "app"; baseline_ref = "oci:old"; target_ref = "oci:new" } ∷ []

validate_pairs_example : (validate_pairs pairs ≡ ok tt) ↔ ((pairs ≢ []) × IsFreshPairs [] pairs)
validate_pairs_example = validate_pairs_iff pairs

-- Every manifest has one layer, "aa", and the config "cc".
abbrev one_layer : List LayerRef
one_layer = record { digest = "aa"; size = pos 100 } ∷ []

abbrev lib : ManifestLib
lib = record {
  normalized = λ mt. mt;
  schema2 = λ raw. ok (one_layer, "cc");
  oci1 = λ raw. err (message "no OCI");
}

abbrev bundle : ExtractedBundle
bundle = record { sidecar = sidecar; blob_dir = "x" }

abbrev extracted : Disk
extracted = ("x/sha256/aa", 1 ∷ []) ∷ []

abbrev dest : FetchedManifest
dest = ok (1 ∷ [], docker_schema2)

verify_apply_invariant_example :
    (verify_apply_invariant lib two_digests image bundle dest extracted ≡ ok tt)
    ↔ IsMatch image blobs one_layer one_layer docker_schema2 docker_schema2 "mm"
unfolding read_sidecar_target_layers read_dest_manifest_layers blob_path parse_manifest_layers
    parse_manifest
verify_apply_invariant_example =
    verify_apply_invariant_iff lib two_digests image bundle dest extracted one_layer one_layer
      docker_schema2 docker_schema2 "mm" refl refl

abbrev resolved : ResolvedBaseline
resolved = record {
  name = "app";
  manifest_bytes = 2 ∷ [];
  manifest_mime = docker_schema2;
  source = λ d. ok [];
}

scan_one_image_example :
    ((scan_one_image lib two_digests none bundle image resolved extracted).status ≡ preflight_ok)
    ↔ All (IsCovered blobs (Has one_layer "cc")) one_layer
unfolding read_sidecar_target_layers blob_path parse_manifest_layers parse_manifest
scan_one_image_example =
    scan_one_image-ok_iff lib two_digests bundle image resolved extracted one_layer one_layer
      docker_schema2 "cc" docker_schema2 refl refl
