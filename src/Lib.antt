-- ===== src/Lib.antt =====
-- A model of diffah, which ships container images as deltas against a baseline.
--
-- The exporter (pkg/exporter) plans each pair of images, encodes every layer that the baseline lacks
-- either whole or as a zstd patch, keeps the results in a pool on disk and writes them with a sidecar
-- (diffah.json) into an archive. The importer (pkg/importer) reads the archive, scans the baselines for
-- what the bundle leaves to them, rebuilds each image and checks what was written. Both use the data of
-- pkg/diff and the patch format of internal/zstdpatch.
--
-- Base: lists, texts, signed integers, Go maps, files and sorting.
-- Diff.Types, Diff.Errors: the records of pkg/diff/plan.go and sidecar.go, and the error types of
--   pkg/diff/errors.go and pkg/importer/errors.go.
-- Diff.Classify: the categories, hints and exit codes of errors (pkg/diff/errs, pkg/diff/errors.go), and
--   what a registry's failure is classified as (pkg/diff/classify_registry.go).
-- Diff.Plan: ComputePlan (pkg/diff/plan.go). Diff.Sidecar: validate, Marshal and ParseSidecar
--   (pkg/diff/sidecar.go) over encoding/json as a parameter.
-- Diff.Specs: ParseBundleSpec, ParseBaselineSpec and ParseOutputSpec (pkg/diff/bundle_spec.go).
-- Exporter.Types, Exporter.Window, Exporter.Mode: the records of pkg/exporter, the memory estimates
--   (admission.go, exporter.go) and resolveMode.
-- Exporter.Codec: EncodeStream, DecodeStream and EncodeFullStream (internal/zstdpatch), with the zstd
--   program as a parameter. Exporter.Fingerprint: score and fingerprintTar (pkg/exporter/fingerprint.go).
-- Exporter.Planner: PickTopK and PlanShippedTopK (pkg/exporter/intralayer.go) with the files they make.
-- Exporter.Pool: blobPool (pkg/exporter/pool.go). Exporter.Spool: spoolReader and spoolBlob
--   (pkg/exporter/perpair.go). Exporter.Encode: encodeOneShipped and encodeTargets
--   (pkg/exporter/encode.go). Exporter.Assemble: ValidatePairs and assembleSidecar.
-- Importer.Manifest, Importer.Invariant, Importer.Preflight: manifest.go, invariant.go and preflight.go
--   of pkg/importer, over the manifest parsers of the image library as parameters.
-- Importer.Compose: GetBlob of the bundle's image source and the baseline spool (compose.go,
--   baselinespool.go), read to the end of the blob.
-- Importer.Import: Import from the extraction on (importer.go, extract.go, guard.go).
-- Importer.Resolve: the baselines that an import opens (resolve.go).
-- Importer.Apply: one image from its resolved baseline to the checked destination (applyOneImage of
--   importer.go, composeImage of compose.go). Importer.Driver: Import past the resolution of the
--   baselines, with the report of Importer.Report (summary.go, importer.go). Importer.Budget: the check
--   of the memory budget (admission.go). Importer.Retry: withRetry (retry.go).
-- Admission: AdmissionPool (internal/admission/admission.go) as steps of its goroutines, with
--   golang.org/x/sync as a parameter. The pool starts the images of an import.
-- Archive: the archive's reader (internal/archive/reader.go): safeJoin, which names the files that are
--   extracted, Extract, ReadSidecar and ReadSidecarAndManifestBlobs over the tar and zstd readers.
-- Progress: CappedWriter (pkg/progress/cappedwriter.go).
-- Examples: each theorem at a concrete input.
--
-- State is passed explicitly: a disk is a map from paths to bytes, and an operation that may fail
-- returns a result next to the state it leaves behind. int and int64 are unbounded integers: the
-- values are sizes and counts that stay far from 2^63. Go maps are association lists, and a loop over
-- one runs in the list's order. Digests are the texts that the program keeps. The operating system's
-- choice to refuse a write or a rename and what a refused write leaves, the blobs that an image source delivers, the zstd program, the
-- JSON codec, the digest functions, the manifest parsers, the copying of images, the texts of errors and
-- the semaphores are parameters. Loops are recursion on the lists they run over, and withRetry on the
-- number of retries that are left, so no fuel is needed.
--
-- Not modelled: message texts, logs and progress bars, registries and transports, the work directory, the
-- command line, the tar format, the archive's writer and the signatures, whose operations in pkg/signer
-- are parameters of Import. The images of an import run one after the other in any order: the pool of
-- Admission has their interleaving, but not their effects. The exporter's workers run one after the
-- other too, and its dry run, like the importer's, is left out. Of the errors of files, those of creating,
-- writing, syncing and closing the baseline spool's temporary file are one parameter, and those of
-- creating the scratch file of a patch, of writing an empty patch or target and of the last stat of the
-- patch format are left out, as is a context that ends between the two checks of the preflight. The name
-- of a candidate's file takes the first eight characters of a digest, of which there are at least as many.
pub mod Base
pub mod Diff
pub mod Exporter
pub mod Importer
pub mod Progress
pub mod Admission
pub mod Archive
pub mod Examples
