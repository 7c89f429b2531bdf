-- ===== src/Examples/Archives.antt =====
-- An archive with a sidecar and one blob.
use Prim.Native.Char.{Char, code}
use Prim.Native.String.{◌++◌}
use Prim.Native.String.append
use diffah.Base.{
  ℕ, String, false, none, some, List, [], ◌∷◌, ◌≡◌, refl, ap, ◌∙◌, inl, arith, eq_iff, All,
  cut_colon,
}
use diffah.Base.Text.{cut_colon}
use diffah.Base.Map.{lookup, insert}
use diffah.Base.Disk.{Bytes, Disk}
use diffah.Diff.Errors.{ok, err, message}
use diffah.Archive.Clean.{safe_join, clean_parts, under}
use diffah.Archive.Clean.Inside.{IsInside, safe_join-IsInside}
use diffah.Archive.Reader.{
  Tar, Readers, Writers, open_archive, read_all, blob_tar_path, read_sidecar,
  read_sidecar_and_manifest_blobs, extract,
}
use diffah.Archive.Reader.Extracted.{extract-outside}
use diffah.Archive.Reader.Sidecars.{read_sidecar-extract}
use diffah.Archive.Reader.Blobs.{IsEntryOf, read_sidecar_and_manifest_blobs-entries}

safe_join_example : IsInside "d" "d/sha256/aa"
unfolding safe_join
safe_join_example = safe_join-IsInside "d" ".//sha256/bb/../aa" "d/sha256/aa" refl

abbrev archive : Tar
archive = record {
  entries =
      record { name = "diffah.json"; is_dir = false; body = 1 ∷ []; read_error = none }
      ∷ record { name = "blobs/sha256/aa"; is_dir = false; body = 2 ∷ []; read_error = none }
      ∷ [];
  ending = none;
}

abbrev pub readers : Readers
readers = record {
  open_file = λ path. ok (7 ∷ []);
  zstd_tar = λ raw. err (message "not compressed");
  plain_tar = λ raw. archive;
}

abbrev pub writers : Writers
writers = record {
  mkdir_error = λ path. none;
  mkdir_parent_error = λ path. none;
  create_error = λ path. none;
  written = λ path body. (body, none);
}

abbrev files : Disk
files = ("etc/hosts", 3 ∷ []) ∷ []

opened : open_archive readers "a.tar" ≡ ok archive
unfolding open_archive
opened = refl

-- The code of a path's first character.
abbrev first : String → ℕ
first String.[] = 0
first (String.◌∷◌ c s) = code c

append-cons : (c : Char) (s t : String) → String.◌∷◌ c s ++ t ≡ String.◌∷◌ c (s ++ t)
append-cons c s t i = append.cons c s t i

first-under :
    (parts : List String) (c : Char) (s : String) → first (under (String.◌∷◌ c s) parts) ≡ code c
unfolding under
first-under [] c s = refl
first-under (p ∷ parts) c s =
    rw (append-cons c s ("/" ++ p)) (first-under parts c (s ++ ("/" ++ p)))

hosts-outside : ¬ IsInside "d" "etc/hosts"
hosts-outside (parts, e, plain) = absurd (apart (ap first e ∙ first-under parts "d" ""))
  where
    apart : ◌≡◌ {A = ℕ} 101 100 → ⊥
    apart h = omega arith

extract-outside_example :
    lookup "etc/hosts" (extract writers "d" readers "a.tar" files).1 ≡ some (3 ∷ [])
extract-outside_example =
    extract-outside writers "d" "etc/hosts" readers "a.tar" files hosts-outside

extracted : (extract writers "d" readers "a.tar" files).0 ≡ ok (1 ∷ [])
unfolding extract open_archive safe_join read_all
extracted = refl

read_sidecar_example : read_sidecar readers "a.tar" ≡ ok (1 ∷ [])
read_sidecar_example =
    read_sidecar-extract writers "d" "a.tar" (1 ∷ []) readers archive files opened
      (inl (refl, (λ e. ground (arith, eq_iff "blobs/sha256/aa" "diffah.json"), tt))) extracted

blobs_read :
    read_sidecar_and_manifest_blobs readers "a.tar" ("sha256:aa" ∷ [])
    ≡ ok (1 ∷ [], ("sha256:aa", 2 ∷ []) ∷ [])
unfolding read_sidecar_and_manifest_blobs open_archive read_all blob_tar_path clean_parts insert
    cut_colon
blobs_read = refl

blobs_example :
    All
      (λ (d : String).
        (body : Bytes) × (lookup d (("sha256:aa", 2 ∷ []) ∷ []) ≡ some body)
        × IsEntryOf archive.entries d body)
      ("sha256:aa" ∷ [])
blobs_example =
    read_sidecar_and_manifest_blobs-entries readers "a.tar" ("sha256:aa" ∷ []) archive (1 ∷ [])
      (("sha256:aa", 2 ∷ []) ∷ []) opened blobs_read
