-- ===== src/Examples/Serves.antt =====
-- A layer that is served from its patch.
use diffah.Base.{String, false, Option, some, [], ◌∷◌, ◌≡◌, ◌≢◌, ◌==◌, refl, subst, arith, eq_iff}
use diffah.Base.Int.{pos}
use diffah.Base.Map.{insert}
use diffah.Base.Disk.{Disk}
use diffah.Diff.Types.{BlobEntry, Sidecar, patch}
use diffah.Diff.Errors.{ok}
use diffah.Exporter.Types.{Digester}
use diffah.Exporter.Codec.{patch_bytes}
use diffah.Importer.Manifest.{blob_path}
use diffah.Importer.Compose.{
  BaselineSpool, BundleSource, path_for, spool_once, get_or_spool, get_blob,
}
use diffah.Importer.Compose.Verified.{IsVerified, IsOutside, IsFresh, Delivers, get_blob-Delivers}
use diffah.Importer.Compose.Rebuilt.{delivered, get_blob-patch_bytes}
use diffah.Examples.Fixtures.{calm_os, hex, opts, tiny_zstd, tiny_zstd-IsZstd}

-- Digests that always agree.
abbrev digests : Digester
digests = record {
  from_bytes = λ b. "mm";
  encoded = hex;
  algorithm = λ d. "sha256";
  digest_as = λ d b. d;
}

abbrev entry : BlobEntry
entry = record {
  size = pos 100;
  media_type = "layer";
  encoding = patch;
  codec = "zstd-patch";
  patch_from_digest = "bb";
  archive_size = pos 2;
}

abbrev sidecar : Sidecar
sidecar = record {
  version = "v1";
  feature = "bundle";
  tool = "diffah";
  tool_version = "1";
  created_at = 1;
  platform = "linux/amd64";
  blobs = some (("aa", entry) ∷ []);
  images = [];
}

abbrev source : BundleSource
source = record {
  os = calm_os;
  dig = digests;
  zstd = tiny_zstd;
  not_found = λ e. false;
  spool_tmp = λ d. "s/tmp";
  scratch = λ d. "w/tmp";
  sidecar = sidecar;
  blob_dir = "x";
  image_name = "app";
  baseline = λ d. ok (1 ∷ []);
}

abbrev spool : BaselineSpool
spool = record { dir = "s"; entries = [] }

abbrev disk : Disk
disk = ("x/sha256/aa", 7 ∷ 5 ∷ []) ∷ []

apart : (x y : String) → (x == y) ≡ false → x ≢ y
apart x y h q = ground (arith, h, eq_iff x y)

get_blob_example : (get_blob source "aa" spool disk).0 ≡ ok (5 ∷ [])
unfolding path_for blob_path patch_bytes
get_blob_example =
    get_blob-patch_bytes source "aa" entry spool disk opts (1 ∷ []) (7 ∷ 5 ∷ []) (5 ∷ [])
      tiny_zstd-IsZstd refl refl refl refl (delivered refl refl refl refl refl)
      (apart "x/sha256/aa" "s/tmp" refl) (apart "x/sha256/aa" "s/bb" refl) refl

nothing_spooled : IsVerified source spool disk
nothing_spooled j path h = absurd (ground arith)

all-IsFresh : (e : String) → IsFresh source spool "aa" disk nothing_spooled e
all-IsFresh e = ((λ j path h. ground arith), λ _ j path h. ground arith)

scratch-IsOutside : IsOutside source (get_or_spool source spool "bb" disk).1 "w/tmp"
unfolding get_or_spool spool_once path_for insert
scratch-IsOutside j path h q = ground (arith, eq_iff "s/bb" "w/tmp")

get_blob_digest_example : Delivers source "aa" (get_blob source "aa" spool disk)
get_blob_digest_example =
    get_blob-Delivers source spool "aa" disk nothing_spooled (all-IsFresh "aa") (λ e h. (
      all-IsFresh e.patch_from_digest,
      subst
          (λ (b : BlobEntry).
            IsOutside source (get_or_spool source spool b.patch_from_digest disk).1 "w/tmp")
          (is_entry e h) scratch-IsOutside,
    ))
  where
    is_entry : (e : BlobEntry) → ◌≡◌ {A = Option BlobEntry} (some entry) (some e) → entry ≡ e
    is_entry e h = ground arith
