-- ===== src/Importer/Compose/Rebuilt.antt =====
-- GetBlob rebuilds a layer that was shipped as a patch.
use diffah.Base.{String, none, some, ◌≡◌, ◌≢◌, refl, ap, ◌∙◌, arith, eq_iff, eq_refl}
use diffah.Base.Int.{ℤ}
use diffah.Base.Map.{lookup, insert, remove, lookup-insert, lookup-remove}
use diffah.Base.Disk.{Bytes, Disk, byte_size}
use diffah.Diff.Types.{BlobEntry, patch, entries}
use diffah.Diff.Errors.{Result, ok}
use diffah.Exporter.Codec.{EncodeOpts, patch_bytes, unpatch, decode_stream}
use diffah.Exporter.Codec.RoundTrip.{IsZstd, unpatch-patch_bytes, decode_stream_writes}
use diffah.Importer.Manifest.{blob_path}
use diffah.Importer.Compose.{
  BaselineSpool, BundleSource, path_for, spool_once, get_or_spool, read_assembled, assemble,
  serve_patch, get_blob,
}

read_assembled_ok :
    (src : BundleSource) (d : String) (b : Bytes)
    → src.dig.digest_as d b ≡ d
    → read_assembled src d b ≡ ok b
unfolding read_assembled
read_assembled_ok src d b h = ground (arith, eq_iff (src.dig.digest_as d b) d)

assemble_ok :
    (src : BundleSource) (d ref_path : String) (disk : Disk) (p target : Bytes)
    → lookup (blob_path src.dig src.blob_dir d) disk ≡ some p
    → unpatch src.zstd (lookup ref_path disk) p ≡ ok target
    → src.dig.digest_as d target ≡ d
    → (assemble src d ref_path disk).0 ≡ ok target
unfolding assemble
assemble_ok src d ref_path disk p target there back right =
    let writes =
      decode_stream_writes src.zstd ref_path (blob_path src.dig src.blob_dir d) (src.scratch d) disk
        target p there back in
    let r =
      decode_stream src.zstd ref_path (blob_path src.dig src.blob_dir d) (src.scratch d) disk in
    let returned : r.0 ≡ ok (byte_size target) = ap (λ (x : Result ℤ × Disk). x.0) writes in
    let at_scratch : lookup (src.scratch d) r.1 ≡ some target =
      ap (λ (x : Result ℤ × Disk). lookup (src.scratch d) x.1) writes
      ∙ ground (
        arith,
        lookup-insert (src.scratch d) (src.scratch d) target disk,
        eq_refl (src.scratch d),
      ) in
    rw (assemble, returned, at_scratch) (read_assembled_ok src d target right)

-- GetBlob for a layer that was shipped as a patch, past the spooling of the patch's source.
get_blob-unpatch :
    (src : BundleSource) (d : String) (entry : BlobEntry) (spool : BaselineSpool) (disk : Disk)
    (ref_path : String) (p target : Bytes)
    → lookup d (entries src.sidecar.blobs) ≡ some entry
    → entry.encoding ≡ patch
    → (get_or_spool src spool entry.patch_from_digest disk).0 ≡ ok ref_path
    → lookup
        (blob_path src.dig src.blob_dir d)
        (get_or_spool src spool entry.patch_from_digest disk).2
      ≡ some p
    → unpatch src.zstd (lookup ref_path (get_or_spool src spool entry.patch_from_digest disk).2) p
      ≡ ok target
    → src.dig.digest_as d target ≡ d
    → (get_blob src d spool disk).0 ≡ ok target
unfolding get_blob serve_patch
get_blob-unpatch src d entry spool disk ref_path p target shipped is_patch spooled there back
      right =
    rw (get_blob, shipped, is_patch, serve_patch, spooled)
      (assemble_ok src d ref_path (get_or_spool src spool entry.patch_from_digest disk).2 p target
        there back right)

module _ (src : BundleSource) (spool : BaselineSpool) (disk : Disk) where
  -- The source `from` of a patch has the content `ref`: it is in the spool, or it is not and the
  -- baseline delivers bytes with its digest, which can be written to the spool.
  pub data IsAvailable (from : String) (ref : Bytes) : Type 0 where
    kept :
        (path : String)
        → lookup from spool.entries ≡ some path
        → lookup path disk ≡ some ref
        → IsAvailable from ref
    delivered :
        lookup from spool.entries ≡ none
        → src.baseline from ≡ ok ref
        → src.dig.digest_as from ref ≡ from
        → src.os.write_error (src.spool_tmp from) ≡ none
        → src.os.rename_error (path_for src.dig spool from) ≡ none
        → IsAvailable from ref

  -- The source is at a path of the spool, and another file is as before.
  abbrev IsServed : String → Bytes → String → Result String × BaselineSpool × Disk → Type 0
  IsServed from ref other x =
      (path : String) × (x.0 ≡ ok path)
      × (lookup path x.2 ≡ some ref)
      × (lookup other x.2 ≡ lookup other disk)

  spooled_file :
      (from other : String) (ref : Bytes)
      → other ≢ src.spool_tmp from
      → other ≢ path_for src.dig spool from
      → lookup other (insert (path_for src.dig spool from) ref (remove (src.spool_tmp from) disk))
        ≡ lookup other disk
  spooled_file from other ref ne ne' =
      let dst = path_for src.dig spool from in
      ground (
        arith,
        lookup-insert dst other ref (remove (src.spool_tmp from) disk),
        lookup-remove (src.spool_tmp from) other disk,
        eq_iff dst other,
        eq_iff (src.spool_tmp from) other,
      )

  get_or_spool-IsServed :
      (from other : String) (ref : Bytes)
      → IsAvailable from ref
      → other ≢ src.spool_tmp from
      → other ≢ path_for src.dig spool from
      → IsServed from ref other (get_or_spool src spool from disk)
  unfolding get_or_spool spool_once
  get_or_spool-IsServed from other ref (kept path held there) ne ne' =
      rw (get_or_spool, held) (path, refl, there, refl)
  get_or_spool-IsServed from other ref (delivered absent fetched right writes renames) ne ne' =
      let dst = path_for src.dig spool from in
      rw (get_or_spool, absent, fetched, spool_once, writes, right, eq_refl from, renames)
        (
          dst,
          refl,
          ground (arith, lookup-insert dst dst ref (remove (src.spool_tmp from) disk), eq_refl dst),
          spooled_file from other ref ne ne',
        )

-- What the exporter makes of a layer, the importer turns back into it: if the layer's entry is a patch,
-- the extracted patch is the one that was made of `target` against the content `ref` of the entry's
-- source, the source is in the spool or the baseline can deliver it, the patch's file is none of those
-- that the spool writes, and `target` has the layer's digest, then GetBlob delivers `target`. This
-- is under zstd's law that a frame decodes to what was encoded, against the same reference.
pub get_blob-patch_bytes :
    (src : BundleSource) (d : String) (entry : BlobEntry) (spool : BaselineSpool) (disk : Disk)
    (opts : EncodeOpts) (ref p target : Bytes)
    → IsZstd src.zstd
    → lookup d (entries src.sidecar.blobs) ≡ some entry
    → entry.encoding ≡ patch
    → patch_bytes src.zstd opts (some ref) target ≡ ok p
    → lookup (blob_path src.dig src.blob_dir d) disk ≡ some p
    → IsAvailable src spool disk entry.patch_from_digest ref
    → blob_path src.dig src.blob_dir d ≢ src.spool_tmp entry.patch_from_digest
    → blob_path src.dig src.blob_dir d ≢ path_for src.dig spool entry.patch_from_digest
    → src.dig.digest_as d target ≡ d
    → (get_blob src d spool disk).0 ≡ ok target
get_blob-patch_bytes src d entry spool disk opts ref p target z shipped is_patch made there
      available ne ne' right =
    let file = blob_path src.dig src.blob_dir d in
    let (path, returned, at_path, same) =
      get_or_spool-IsServed src spool disk entry.patch_from_digest file ref available ne ne' in
    get_blob-unpatch src d entry spool disk path p target shipped is_patch returned (same ∙ there)
      (ap (λ r. unpatch src.zstd r p) at_path
        ∙ unpatch-patch_bytes src.zstd z opts (some ref) target p made)
      right
