-- ===== src/Importer/Import.antt =====
-- Import of pkg/importer/importer.go with a work directory in place: the extraction (extract.go), the
-- checks before anything is applied (guard.go), the resolution of the baselines and what follows. The
-- operations of pkg/signer are parameters.
pub mod Closes
use diffah.Base.{
  ℕ, suc, String, Bool, true, false, not, ◌||◌, Option, none, some, List, [], ◌∷◌, map, length,
  if◌then◌else◌, ◌==◌,
}
use diffah.Base.Map.{Map}
use diffah.Base.Disk.{Bytes, Disk, join}
use diffah.Diff.Types.{Sidecar, ImageEntry}
use diffah.Diff.Errors.{
  Error, Result, ok, err, ◌>>=◌, wrap_err, wrap, user_error, content, zstd_binary_missing,
  multi_image_needs_named_baselines,
}
use diffah.Diff.Sidecar.{Json, parse_sidecar, requires_zstd}
use diffah.Archive.Reader.{Readers, Writers, extract}
use diffah.Importer.Manifest.{ExtractedBundle}
use diffah.Importer.Apply.{State, Site}
use diffah.Importer.Driver.{ImportOptions, Imported, import_resolved}
use diffah.Importer.Resolve.{
  Sources, Registry, Held, default_image_key, rewrite_default_key, resolve_baselines,
  close_resolved_baselines,
}

-- encoding/json at the type Sidecar; LoadSidecars, PayloadDigestFromSidecar and Verify of pkg/signer;
-- os.MkdirTemp and os.RemoveAll; and the probe for the zstd program.
pub record Host : Type 0 where
  pub readers : Readers
  pub writers : Writers
  pub marshal_indent : Sidecar → Result Bytes
  pub unmarshal : Bytes → Result Sidecar
  pub load_sidecars : String → Result (Option Bytes)
  pub payload_digest : Bytes → Result Bytes
  pub verify : String → Bytes → Bytes → Result (Unit {0})
  pub mkdir_temp : Result String
  pub remove_all : String → Disk → Disk
  pub zstd_available : Bool

-- The fields of Options that only Import reads.
pub record Request : Type 0 where
  pub delta_path : String
  pub verify_pub_key_path : String
  pub baselines : Map String

abbrev pub json : Host → Json
json host = record {
  Bytes = Bytes;
  marshal_indent = host.marshal_indent;
  unmarshal = host.unmarshal;
}

-- extractedBundle with the directory and the sidecar's bytes.
pub record Extraction : Type 0 where
  pub bundle : ExtractedBundle
  pub tmp_dir : String
  pub sidecar_raw : Bytes

parsed_bundle : Host → String → Result Bytes × Disk → Result Extraction × Disk
parsed_bundle host dir (err e, disk) = (err (wrap "extract delta" e), host.remove_all dir disk)
parsed_bundle host dir (ok raw, disk) = elim (parse_sidecar (json host) raw) [
  | err e ↦ (err (wrap "parse sidecar" e), host.remove_all dir disk)
  | ok s ↦ (
    ok (record {
      bundle = record { sidecar = s; blob_dir = join dir "blobs" };
      tmp_dir = dir;
      sidecar_raw = raw;
    }),
    disk,
  )
]

-- extractBundle
unfoldable pub extract_bundle : Host → String → Disk → Result Extraction × Disk
unfolding parsed_bundle
extract_bundle host delta_path disk = elim (host.mkdir_temp) [
  | err e ↦ (err (wrap "create tmp dir" e), disk)
  | ok dir ↦ parsed_bundle host dir (extract host.writers dir host.readers delta_path disk)
]

abbrev archive_unsigned : Error
archive_unsigned = user_error content "archive is not signed" ""

-- verifySignature
unfoldable pub verify_signature : Host → Request → Bytes → Result (Unit {0})
verify_signature host req raw = host.load_sidecars req.delta_path >>= λ loaded. elim loaded [
  | none ↦ err archive_unsigned
  | some sig ↦
      host.payload_digest raw >>= λ payload. host.verify req.verify_pub_key_path payload sig
]

has_positional : Map String → Bool
has_positional [] = false
has_positional ((name, _) ∷ baselines) =
    name == default_image_key || name == "" || has_positional baselines

-- validatePositionalBaseline
unfoldable pub validate_positional_baseline : List ImageEntry → Map String → Result (Unit {0})
unfolding has_positional
validate_positional_baseline (_ ∷ []) baselines = ok tt
validate_positional_baseline images baselines =
    if has_positional baselines
    then err (multi_image_needs_named_baselines (length images))
    else ok tt

-- preApplyChecks
unfoldable pub pre_apply_checks : Host → Request → Sidecar → Bytes → Result (Unit {0})
pre_apply_checks host req s raw =
    (if not (req.verify_pub_key_path == "") then verify_signature host req raw else ok tt) >>= λ _.
    (if requires_zstd s
      then (if host.zstd_available then ok tt else err (wrap "zstd" zstd_binary_missing))
      else ok tt)
    >>= λ _. validate_positional_baseline s.images req.baselines

module _ {Dest : Type 0} (site : Site Dest) (reg : Registry) (host : Host) (req : Request)
    (opts : ImportOptions) (schedule : List String) where
  abbrev pub failed_with : Error → State Dest → Imported Dest
  failed_with e st = record { result = err e; report = none; state = st }

  import_held :
      ExtractedBundle → Result (List Held) × Sources → State Dest → Imported Dest × Sources
  import_held bundle (err e, sources) st = (failed_with e st, sources)
  import_held bundle (ok held, sources) st = (
    import_resolved site bundle
        (record opts { outputs = rewrite_default_key bundle.sidecar.images opts.outputs })
        (map (λ (x : Held). x.baseline) held) schedule st,
    close_resolved_baselines held sources,
  )

  import_bundle : Extraction → State Dest → Sources → Imported Dest × Sources
  unfolding import_held
  import_bundle x st sources = elim (pre_apply_checks host req x.bundle.sidecar x.sidecar_raw) [
    | err e ↦ (failed_with e st, sources)
    | ok _ ↦
        import_held x.bundle
          (resolve_baselines site reg x.bundle.sidecar.images req.baselines opts.strict sources) st
  ]

  -- The deferred cleanup of the extracted bundle.
  cleaned : String → Imported Dest × Sources → Imported Dest × Sources
  cleaned dir (i, sources) =
      (record i { state = record (i.state) { disk = host.remove_all dir i.state.disk } }, sources)

  import_extracted : Result Extraction × Disk → State Dest → Sources → Imported Dest × Sources
  unfolding import_bundle cleaned
  import_extracted (err e, disk) st sources = (failed_with e (record st { disk = disk }), sources)
  import_extracted (ok x, disk) st sources =
      cleaned x.tmp_dir (import_bundle x (record st { disk = disk }) sources)

  -- Import
  unfoldable pub import_delta : State Dest → Sources → Imported Dest × Sources
  unfolding import_extracted
  import_delta st sources = import_extracted (extract_bundle host req.delta_path st.disk) st sources
