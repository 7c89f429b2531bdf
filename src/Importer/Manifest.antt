-- ===== src/Importer/Manifest.antt =====
-- pkg/importer/manifest.go: the layers of a manifest, and the set of digests that the maps to
-- struct{} of the package stand for.
use diffah.Base.{
  String, none, some, List, [], ◌∷◌, ◌≡◌, ◌↔◌, ◌⊎◌, inr, eq_iff, arith, In, contains, contains_iff,
  if◌then◌else◌, ◌==◌,
}
use diffah.Base.Int.{ℤ}
use diffah.Base.Map.{lookup}
use diffah.Base.Disk.{Bytes, Disk, join}
use diffah.Diff.Types.{ImageEntry, Sidecar}
use diffah.Diff.Errors.{Result, ok, err, ◌>>=◌, wrap_err, message}
use diffah.Exporter.Types.{Digester}

pub record LayerRef : Type 0 where
  pub digest : String
  pub size : ℤ

abbrev pub docker_schema2 : String
docker_schema2 = "application/vnd.docker.distribution.manifest.v2+json"

abbrev pub oci_manifest : String
oci_manifest = "application/vnd.oci.image.manifest.v1+json"

-- go.podman.io/image/v5/manifest: NormalizedMIMEType, and the layers and the config's digest that
-- Schema2FromManifest and OCI1FromManifest read.
pub record ManifestLib : Type 0 where
  pub normalized : String → String
  pub schema2 : Bytes → Result (List LayerRef × String)
  pub oci1 : Bytes → Result (List LayerRef × String)

pub record ExtractedBundle : Type 0 where
  pub sidecar : Sidecar
  pub blob_dir : String

-- An image as its transport gives it: the manifest and its media type.
abbrev pub FetchedManifest : Type 0
FetchedManifest = Result (Bytes × String)

unfoldable pub blob_path : Digester → String → String → String
blob_path dig blob_dir d = join blob_dir (join (dig.algorithm d) (dig.encoded d))

module _ (lib : ManifestLib) where
  with_type : String → Result (List LayerRef × String) → Result (List LayerRef × String × String)
  with_type mt (ok (layers, config)) = ok (layers, config, mt)
  with_type mt (err e) = err e

  -- parseManifest
  unfoldable pub parse_manifest : Bytes → String → Result (List LayerRef × String × String)
  unfolding with_type
  parse_manifest raw media_type =
      let canonical = lib.normalized media_type in
      if canonical == docker_schema2
      then with_type canonical (wrap_err "parse docker schema 2 manifest" (lib.schema2 raw))
      else if canonical == oci_manifest
      then with_type canonical (wrap_err "parse OCI manifest" (lib.oci1 raw))
      else err (message "unsupported manifest media type")

  -- parseManifestLayers
  unfoldable pub parse_manifest_layers : Bytes → String → Result (List LayerRef × String)
  parse_manifest_layers raw media_type = parse_manifest raw media_type >>= λ p. ok (p.0, p.2)

  -- readSidecarTargetLayers
  unfoldable pub read_sidecar_target_layers :
      Digester → ExtractedBundle → ImageEntry → Disk → Result (List LayerRef × String)
  read_sidecar_target_layers dig bundle img disk =
      elim (lookup (blob_path dig bundle.blob_dir img.target.manifest_digest) disk) [
        | none ↦ err (message "read target manifest")
        | some raw ↦ parse_manifest_layers raw img.target.media_type
      ]

  -- readDestManifestLayers
  unfoldable pub read_dest_manifest_layers :
      Digester → FetchedManifest → Result (List LayerRef × String × String)
  read_dest_manifest_layers dig fetched = wrap_err "read dest manifest" fetched >>= λ f.
      parse_manifest_layers f.0 f.1 >>= λ p. ok (p.0, p.1, dig.from_bytes f.0)

-- set[d] = struct{}{}
unfoldable pub add : String → List String → List String
add d set = if contains d set then set else d ∷ set

pub contains-add_iff : (x d : String) (set : List String) → In x (add d set) ↔ ((x ≡ d) ⊎ In x set)
unfolding add
contains-add_iff x d set = ground (arith, contains_iff d set)

-- The keys of the set after the list has been put in.
unfoldable pub add_all : List String → List String → List String
add_all [] set = set
add_all (d ∷ ds) set = add_all ds (add d set)

pub In-add_all_iff :
    (x : String) (ds set : List String) → In x (add_all ds set) ↔ (In x ds ⊎ In x set)
unfolding add_all
In-add_all_iff x [] set = ground arith
In-add_all_iff x (d ∷ ds) set =
    ground (arith, In-add_all_iff x ds (add d set), contains-add_iff x d set)

-- digestsNotIn, and the loops of layerSetDiff: the items of the first list that the set has not.
unfoldable pub digests_not_in : List String → List String → List String
digests_not_in [] have = []
digests_not_in (d ∷ want) have =
    let rest = digests_not_in want have in if contains d have then rest else d ∷ rest

pub In-digests_not_in_iff :
    (x : String) (want have : List String)
    → In x (digests_not_in want have) ↔ (In x want × (¬ In x have))
unfolding digests_not_in
In-digests_not_in_iff x [] have = ground arith
In-digests_not_in_iff x (d ∷ want) have =
    ground (arith, In-digests_not_in_iff x want have, contains_iff d have, contains_iff x have)

pub In-either : (x : String) (xs : List String) → In x xs ⊎ (¬ In x xs)
In-either x [] = inr (λ m. m)
In-either x (y ∷ ys) = ground (arith, In-either x ys, eq_iff x y)
