-- ===== src/Importer/Apply.antt =====
-- The part of pkg/importer/importer.go that applies one image, and composeImage of compose.go with its
-- check of the output format. The image library is a parameter: it parses references, copies an image
-- to a destination and answers with a destination's manifest.
pub mod Image
use Prim.Native.Char.{code}
use diffah.Base.{
  ℕ, String, Bool, true, false, not, ◌&&◌, ◌||◌, Option, none, some, List, [], ◌∷◌, leb, contains,
  cut_colon, if◌then◌else◌, ◌==◌,
}
use diffah.Base.Int.{ℤ}
use diffah.Base.Map.{Map, lookup}
use diffah.Base.Disk.{Bytes, Disk, join}
use diffah.Diff.Types.{ImageEntry, entries}
use diffah.Diff.Errors.{
  Error, Result, ok, err, ◌>>=◌, wrap_err, message, wrap, incompatible_output_format,
}
use diffah.Diff.Classify.{Texts}
use diffah.Diff.Classify.Registry.{classify_registry_err, is_blob_not_found}
use diffah.Exporter.Types.{Digester}
use diffah.Exporter.Codec.{Zstd}
use diffah.Exporter.Pool.{Os}
use diffah.Importer.Manifest.{
  ManifestLib, ExtractedBundle, FetchedManifest, blob_path, docker_schema2, oci_manifest,
}
use diffah.Importer.Invariant.{verify_apply_invariant}
use diffah.Importer.Preflight.{ResolvedBaseline}
use diffah.Importer.Compose.{BaselineSpool, BundleSource}
use diffah.Importer.Report.{ApplyImageResult, apply_ok, failed, failed_compose, failed_invariant}

-- What an import works on; `Dest` is the state of all destinations.
pub record State (Dest : Type 0) : Type 0 where
  pub spool : BaselineSpool
  pub disk : Disk
  pub dest : Dest

-- go.podman.io/image/v5: alltransports.ParseImageName, a reference's Transport().Name() and
-- StringWithinTransport(), copy.Image with its PreserveDigests, and the manifest of a destination; and signature.NewPolicyContext, which may fail.
pub record ImageLib (Dest : Type 0) : Type 0 where
  pub parse_image_name : String → Result String
  pub transport_name : String → String
  pub within_transport : String → String
  pub policy_error : Option Error
  pub copy_image :
      BundleSource → Bytes → String → String → Bool → State Dest → Result (Unit {0}) × State Dest
  pub fetched : String → State Dest → FetchedManifest

-- The rest of what applying an image needs: the operating system, the digests, zstd and the texts of
-- errors. `mkdir_error` and `mkdir_parent_error` are what os.MkdirAll of a path and of its parent end
-- with.
pub record Site (Dest : Type 0) : Type 0 where
  pub manifests : ManifestLib
  pub images : ImageLib Dest
  pub os : Os
  pub dig : Digester
  pub zstd : Zstd
  pub texts : Texts
  pub unmarshal_layers : Bytes → Result (List String)
  pub spool_tmp : String → String
  pub scratch_tmp : String → String → String
  pub mkdir_error : String → Option Error
  pub mkdir_parent_error : String → Option Error

abbrev pub format_docker_archive : String
format_docker_archive = "docker-archive"

abbrev pub format_oci_archive : String
format_oci_archive = "oci-archive"

abbrev pub format_dir : String
format_dir = "dir"

-- enforceOutputCompat, with the name of the destination's transport and the assembled manifest's type.
unfoldable pub enforce_output_compat : String → String → Bool → Result (Unit {0})
enforce_output_compat transport mime allow_convert =
    if allow_convert || mime == ""
    then ok tt
    else if transport == format_docker_archive
    then (if not (mime == docker_schema2)
        then err (incompatible_output_format mime format_docker_archive)
        else ok tt)
    else if transport == format_oci_archive || transport == "oci"
    then (if not (mime == oci_manifest)
        then err (incompatible_output_format mime transport)
        else ok tt)
    else ok tt

-- unicode.IsSpace of the first 256 characters and of the others.
is_space : ℕ → Bool
is_space c =
    (leb 9 c && leb c 13)
    || (leb 32 c && leb c 32)
    || (leb 0x85 c && leb c 0x85)
    || (leb 0xa0 c && leb c 0xa0)
    || (leb 0x1680 c && leb c 0x1680)
    || (leb 0x2000 c && leb c 0x200a)
    || (leb 0x2028 c && leb c 0x2029)
    || (leb 0x202f c && leb c 0x202f)
    || (leb 0x205f c && leb c 0x205f)
    || (leb 0x3000 c && leb c 0x3000)

-- strings.TrimSpace(s) == ""
is_blank : String → Bool
unfolding is_space
is_blank String.[] = true
is_blank (String.◌∷◌ c s) = is_space (code c) && is_blank s

module _ {Dest : Type 0} (site : Site Dest) where
  -- ParseReference (internal/imageio/reference.go)
  unfoldable pub parse_reference : String → Result String
  unfolding is_blank
  parse_reference ref =
      if is_blank ref
      then err (message "empty image reference")
      else wrap_err "parse reference" (site.images.parse_image_name ref)

  mkdir : String → Option Error → Result (Unit {0})
  mkdir text none = ok tt
  mkdir text (some e) = err (wrap text e)

  make_parent : String → String → Result (Unit {0})
  unfolding mkdir
  make_parent transport path =
      if transport == format_oci_archive || transport == format_docker_archive
      then mkdir "mkdir parent for output" (site.mkdir_parent_error path)
      else if transport == format_dir || transport == "oci"
      then mkdir "mkdir output" (site.mkdir_error path)
      else ok tt

  -- ensureOutputParent
  ensure_output_parent : String → Result (Unit {0})
  unfolding make_parent mkdir
  ensure_output_parent raw_out = elim (cut_colon raw_out) [
    | none ↦ ok tt
    | some (transport, path) ↦ make_parent transport path
  ]

  -- prepareDestRef
  unfoldable pub prepare_dest_ref : String → Map String → Result String
  unfolding ensure_output_parent parse_reference
  prepare_dest_ref name outputs = elim (lookup name outputs) [
    | none ↦ err (message "no output reference in OUTPUT-SPEC")
    | some raw_out ↦ do
      _ ← wrap_err "prepare output" (ensure_output_parent raw_out)
      wrap_err "parse output reference" (parse_reference raw_out)
  ]

  -- The bundleImageSource that composeImage makes.
  unfoldable pub bundle_source :
      ExtractedBundle → ImageEntry → ResolvedBaseline → String → BundleSource
  bundle_source bundle img rb workdir = record {
    os = site.os;
    dig = site.dig;
    zstd = site.zstd;
    not_found = is_blob_not_found site.texts;
    spool_tmp = site.spool_tmp;
    scratch = site.scratch_tmp (join workdir (join "scratch" img.name));
    sidecar = bundle.sidecar;
    blob_dir = bundle.blob_dir;
    image_name = img.name;
    baseline = rb.source;
  }

  copied : String → Result (Unit {0}) × State Dest → Result (Unit {0}) × State Dest
  copied ref (ok _, st) = (ok tt, st)
  copied ref (err e, st) = (
    err (wrap "copy to" (classify_registry_err site.texts e (site.images.within_transport ref))),
    st,
  )

  -- composeImage past the reading of the manifest and the making of the scratch directory.
  compose_manifest :
      ExtractedBundle
      → ImageEntry
      → ResolvedBaseline
      → Bytes
      → String
      → Bool
      → String
      → State Dest
      → Result (Unit {0}) × State Dest
  unfolding copied
  compose_manifest bundle img rb manifest ref allow_convert workdir st =
      elim (enforce_output_compat (site.images.transport_name ref) img.target.media_type
        allow_convert) [
          | err e ↦ (err e, st)
          | ok _ ↦ elim (site.images.policy_error) [
            | some e ↦ (err (wrap "build signature policy context" e), st)
            | none ↦ copied ref (
                site.images.copy_image (bundle_source bundle img rb workdir) manifest
                  img.target.media_type ref (site.images.transport_name ref == format_dir) st)
          ]
        ]

  -- composeImage
  unfoldable pub compose_image :
      ExtractedBundle
      → ImageEntry
      → ResolvedBaseline
      → String
      → Bool
      → String
      → State Dest
      → Result (Unit {0}) × State Dest
  unfolding compose_manifest
  compose_image bundle img rb ref allow_convert workdir st =
      elim (lookup (blob_path site.dig bundle.blob_dir img.target.manifest_digest) st.disk) [
        | none ↦ (err (message "read target manifest"), st)
        | some manifest ↦ elim (site.mkdir_error (join workdir (join "scratch" img.name))) [
          | some e ↦ (err (wrap "mkdir scratch" e), st)
          | none ↦ compose_manifest bundle img rb manifest ref allow_convert workdir st
        ]
      ]

  checked :
      ExtractedBundle
      → ImageEntry
      → String
      → String
      → Result (Unit {0}) × State Dest
      → ApplyImageResult × State Dest
  checked bundle img name ref (err e, st) = (failed name failed_compose e, st)
  checked bundle img name ref (ok _, st) =
      elim (verify_apply_invariant site.manifests site.dig img bundle (site.images.fetched ref st)
        st.disk) [
          | err e ↦ (failed name failed_invariant e, st)
          | ok _ ↦ (record { image_name = name; status = apply_ok; error = none }, st)
        ]

  -- applyOneImage for an image that findImageByName has found.
  unfoldable pub apply_found :
      ExtractedBundle
      → Map ResolvedBaseline
      → Map String
      → Bool
      → String
      → String
      → ImageEntry
      → State Dest
      → ApplyImageResult × State Dest
  unfolding checked
  apply_found bundle resolved outputs allow_convert workdir name img st =
      elim (lookup name resolved) [
        | none ↦ (failed name failed_compose (message "no resolved baseline"), st)
        | some rb ↦ elim (prepare_dest_ref name outputs) [
          | err e ↦ (failed name failed_compose e, st)
          | ok ref ↦
              checked bundle img name ref (compose_image bundle img rb ref allow_convert workdir st)
        ]
      ]

-- findImageByName
unfoldable pub find_image_by_name : List ImageEntry → String → Option ImageEntry
find_image_by_name [] name = none
find_image_by_name (img ∷ images) name =
    let rest = find_image_by_name images name in if img.name == name then some img else rest
