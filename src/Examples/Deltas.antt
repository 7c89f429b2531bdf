-- ===== src/Examples/Deltas.antt =====
-- The import of an archive that is not signed, without and with a key to verify.
use diffah.Base.{inl, inr, false, none, some, [], ◌∷◌, ◌≡◌, ◌≢◌, refl, arith, eq_iff}
use diffah.Base.Int.{pos}
use diffah.Diff.Types.{Sidecar, full}
use diffah.Importer.Manifest.{docker_schema2}
use diffah.Base.Map.{insert}
use diffah.Base.Disk.{Disk}
use diffah.Diff.Errors.{ok, err, message, user_error, content}
use diffah.Diff.Sidecar.{
  parse_sidecar, validate, validate_images, validate_image, validate_blobs, matches_name,
  validate_blob_entry,
}
use diffah.Archive.Reader.{open_archive, read_all, extract}
use diffah.Archive.Clean.{safe_join}
use diffah.Importer.Import.{Host, Request, Extraction, extract_bundle, import_delta}
use diffah.Importer.Import.Closes.{import_delta-closes, import_delta-unverified}
use diffah.Examples.Imports.{site, bundle, options, state}
use diffah.Examples.Baselines.{registry, nothing_open, nothing_open-IsFresh}
use diffah.Examples.Archives.{readers, writers}

abbrev sidecar : Sidecar
sidecar = record (bundle.sidecar) {
  blobs = some (
      (
        "mm",
        record {
          size = pos 2;
          media_type = docker_schema2;
          encoding = full;
          codec = "";
          patch_from_digest = "";
          archive_size = pos 2;
        },
      )
      ∷ []);
}

abbrev host : Host
host = record {
  readers = readers;
  writers = writers;
  marshal_indent = λ s. err (message "not used");
  unmarshal = λ raw. ok sidecar;
  load_sidecars = λ path. ok none;
  payload_digest = λ raw. ok raw;
  verify = λ key payload sig. ok tt;
  mkdir_temp = ok "t";
  remove_all = λ dir disk. disk;
  zstd_available = false;
}

abbrev request : Request
request = record {
  delta_path = "a.tar";
  verify_pub_key_path = "k.pub";
  baselines = ("default", "docker://r/old") ∷ [];
}

import_delta-closes_example :
    (import_delta site registry host
        (record request { verify_pub_key_path = "" })
        options
        ("app" ∷ [])
        state
        nothing_open).1.live
      0
    ≡ false
import_delta-closes_example =
    import_delta-closes site registry host (record request { verify_pub_key_path = "" }) options
      ("app" ∷ []) state nothing_open 0 nothing_open-IsFresh

abbrev extraction : Extraction
extraction = record {
  bundle = record { sidecar = sidecar; blob_dir = "t/blobs" };
  tmp_dir = "t";
  sidecar_raw = 1 ∷ [];
}

abbrev unpacked : Disk
unpacked = ("x/sha256/aa", 1 ∷ []) ∷ ("t/blobs/sha256/aa", 2 ∷ []) ∷ []

unpacks : extract_bundle host "a.tar" state.disk ≡ (ok extraction, unpacked)
unfolding extract_bundle extract open_archive read_all safe_join insert parse_sidecar validate
    validate_images validate_image validate_blobs validate_blob_entry matches_name
unpacks = refl

keyed : request.verify_pub_key_path ≢ ""
keyed q = ground (arith, eq_iff "k.pub" "")

import_delta-unverified_example :
    import_delta site registry host request options ("app" ∷ []) state nothing_open ≡ (
      record {
        result = err (user_error content "archive is not signed" "");
        report = none;
        state = record state { disk = unpacked };
      },
      nothing_open,
    )
import_delta-unverified_example =
    import_delta-unverified site registry host request options ("app" ∷ []) state nothing_open
      extraction unpacked (user_error content "archive is not signed" "") unpacks keyed
      (inr (inl (refl, refl)))
