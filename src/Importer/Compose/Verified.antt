-- ===== src/Importer/Compose/Verified.antt =====
-- Nothing that GetBlob delivers has another digest than the one asked for.
use diffah.Base.{
  String, none, some, ◌≡◌, ◌≢◌, refl, subst, ◌∙◌, inl, inr, arith, Bool-cases, Option-cases, eq_iff,
  eq_refl, ◌==◌,
}
use diffah.Base.Map.{lookup, insert, remove, lookup-insert, lookup-remove}
use diffah.Base.Disk.{Bytes, Disk}
use diffah.Diff.Types.{Encoding, BlobEntry, full, patch, unknown, entries}
use diffah.Diff.Errors.{Result, ok, err, Result-cases}
use diffah.Exporter.Codec.{decode_stream}
use diffah.Exporter.Codec.RoundTrip.{decode_stream_frame}
use diffah.Importer.Manifest.{blob_path}
use diffah.Importer.Compose.{
  BaselineSpool, BundleSource, path_for, spool_once, get_or_spool, read_shipped, read_assembled,
  serve_full, assemble, serve_patch, serve_baseline, get_blob,
}

module _ (src : BundleSource) where
  -- Every file of the spool is there and has its digest.
  abbrev pub IsVerified : BaselineSpool → Disk → Type 0
  IsVerified spool disk =
      (j path : String)
      → lookup j spool.entries ≡ some path
      → (b : Bytes) × (lookup path disk ≡ some b) × (src.dig.digest_as j b ≡ j)

  -- A path is no file of the spool.
  abbrev pub IsOutside : BaselineSpool → String → Type 0
  IsOutside spool x = (j path : String) → lookup j spool.entries ≡ some path → path ≢ x

  kept :
      (spool : BaselineSpool) (disk disk' : Disk)
      → IsVerified spool disk
      → ((j path : String)
          → lookup j spool.entries ≡ some path
          → lookup path disk' ≡ lookup path disk)
      → IsVerified spool disk'
  kept spool disk disk' good same j path h =
      let (b, there, right) = good j path h in (b, same j path h ∙ there, right)

  removed :
      (spool : BaselineSpool) (disk : Disk) (x : String)
      → IsVerified spool disk
      → IsOutside spool x
      → IsVerified spool (remove x disk)
  removed spool disk x good out =
      kept spool disk (remove x disk) good
        (λ j path h. ground (arith, lookup-remove x path disk, eq_iff x path, out j path h))

  -- The spool after a call, and the path that it returned.
  abbrev pub Spooled : String → Result String × BaselineSpool × Disk → Type 0
  Spooled d x =
      IsVerified x.1 x.2 × ((path : String) → x.0 ≡ ok path → lookup d x.1.entries ≡ some path)

  added :
      (spool : BaselineSpool) (d : String) (b : Bytes) (disk : Disk)
      → IsVerified spool disk
      → IsOutside spool (src.spool_tmp d)
      → IsOutside spool (path_for src.dig spool d)
      → src.dig.digest_as d b ≡ d
      → let dst = path_for src.dig spool d in
        IsVerified
          (record spool { entries = insert d dst spool.entries })
          (insert dst b (remove (src.spool_tmp d) disk))
  added spool d b disk good out_tmp out_dst right j path h = elim (Bool-cases (d == j)) [
    | inl q ↦
        let dst = path_for src.dig spool d in
        (
          b,
          ground (
            arith,
            h,
            lookup-insert d j dst spool.entries,
            lookup-insert dst path b (remove (src.spool_tmp d) disk),
            eq_refl dst,
          ),
          subst (λ x. src.dig.digest_as x b ≡ x) ((eq_iff d j).0 q) right,
        )
    | inr q ↦
        let dst = path_for src.dig spool d in
        let old : lookup j spool.entries ≡ some path =
          ground (arith, h, lookup-insert d j dst spool.entries) in
        let (c, there, fine) = good j path old in
        (
          c,
          ground (
            arith,
            there,
            lookup-insert dst path b (remove (src.spool_tmp d) disk),
            lookup-remove (src.spool_tmp d) path disk,
            eq_iff dst path,
            eq_iff (src.spool_tmp d) path,
            out_tmp j path old,
            out_dst j path old,
          ),
          fine,
        )
  ]

  spool_once-Spooled :
      (spool : BaselineSpool) (d : String) (fetched : Result Bytes) (disk : Disk)
      → IsVerified spool disk
      → IsOutside spool (src.spool_tmp d)
      → IsOutside spool (path_for src.dig spool d)
      → Spooled d (spool_once src spool d fetched disk)
  unfolding spool_once
  spool_once-Spooled spool d (err e) disk good out_tmp out_dst = (good, λ path h. ground arith)
  spool_once-Spooled spool d (ok b) disk good out_tmp out_dst =
      elim (Option-cases (src.os.write_error (src.spool_tmp d))) [
        | inr (e, w) ↦
            rw (spool_once, w)
              (removed spool disk (src.spool_tmp d) good out_tmp, λ path h. ground arith)
        | inl w ↦ elim (Bool-cases (src.dig.digest_as d b == d)) [
          | inr q ↦
              rw (spool_once, w, q)
                (removed spool disk (src.spool_tmp d) good out_tmp, λ path h. ground arith)
          | inl q ↦ elim (Option-cases (src.os.rename_error (path_for src.dig spool d))) [
            | inr (e, r) ↦
                rw (spool_once, w, q, r)
                  (removed spool disk (src.spool_tmp d) good out_tmp, λ path h. ground arith)
            | inl r ↦
                rw (spool_once, w, q, r)
                  (
                    added spool d b disk good out_tmp out_dst
                        ((eq_iff (src.dig.digest_as d b) d).0 q),
                    λ path h. ground (
                      arith,
                      lookup-insert d d (path_for src.dig spool d) spool.entries,
                      eq_refl d,
                    ),
                  )
          ]
        ]
      ]

  get_or_spool-Spooled :
      (spool : BaselineSpool) (d : String) (disk : Disk)
      → IsVerified spool disk
      → IsOutside spool (src.spool_tmp d)
      → (lookup d spool.entries ≡ none → IsOutside spool (path_for src.dig spool d))
      → Spooled d (get_or_spool src spool d disk)
  unfolding get_or_spool
  get_or_spool-Spooled spool d disk good out_tmp out_dst =
      elim (Option-cases (lookup d spool.entries)) [
        | inr (p, h) ↦ rw (get_or_spool, h) (good, λ path q. ground arith)
        | inl h ↦
            rw (get_or_spool, h)
              (spool_once-Spooled spool d (src.baseline d) disk good out_tmp (out_dst h))
      ]

  -- Whatever is delivered has the digest that was asked for.
  abbrev pub HasDigest : String → Result Bytes → Type 0
  HasDigest d r = (b : Bytes) → r ≡ ok b → src.dig.digest_as d b ≡ d

  read_shipped-HasDigest : (d : String) (b : Bytes) → HasDigest d (read_shipped src d b)
  unfolding read_shipped
  read_shipped-HasDigest d b c h = ground (arith, h, eq_iff (src.dig.digest_as d b) d)

  read_assembled-HasDigest : (d : String) (b : Bytes) → HasDigest d (read_assembled src d b)
  unfolding read_assembled
  read_assembled-HasDigest d b c h = ground (arith, h, eq_iff (src.dig.digest_as d b) d)

  serve_full-HasDigest : (d : String) (disk : Disk) → HasDigest d (serve_full src d disk)
  unfolding serve_full
  serve_full-HasDigest d disk =
      elim (Option-cases (lookup (blob_path src.dig src.blob_dir d) disk)) [
        | inl h ↦ rw (serve_full, h) (λ c q. ground arith)
        | inr (b, h) ↦ rw (serve_full, h) (read_shipped-HasDigest d b)
      ]

  assemble-HasDigest :
      (d ref_path : String) (disk : Disk)
      → HasDigest d (assemble src d ref_path disk).0
        × ((x : String)
            → x ≢ src.scratch d
            → lookup x (assemble src d ref_path disk).1 ≡ lookup x disk)
  unfolding assemble
  assemble-HasDigest d ref_path disk =
      let patch_path = blob_path src.dig src.blob_dir d in
      let r = decode_stream src.zstd ref_path patch_path (src.scratch d) disk in
      let frame : (x : String)
          → x ≢ src.scratch d
          → lookup x (remove (src.scratch d) r.1) ≡ lookup x disk =
        λ x ne. ground (
          arith,
          lookup-remove (src.scratch d) x r.1,
          eq_iff (src.scratch d) x,
          decode_stream_frame src.zstd ref_path patch_path (src.scratch d) x disk ne,
        ) in
      elim (Result-cases r.0) [
        | inr (e, h) ↦ rw (assemble, h) ((λ c q. ground arith), frame)
        | inl (n, h) ↦ elim (Option-cases (lookup (src.scratch d) r.1)) [
          | inl k ↦ rw (assemble, h, k) ((λ c q. ground arith), frame)
          | inr (b, k) ↦ rw (assemble, h, k) (read_assembled-HasDigest d b, frame)
        ]
      ]

  -- The spool is verified afterwards, and what is delivered has the digest.
  abbrev pub Delivers : String → Result Bytes × BaselineSpool × Disk → Type 0
  Delivers d x = HasDigest d x.0 × IsVerified x.1 x.2

  module _ (spool : BaselineSpool) (d : String) (disk : Disk) (good : IsVerified spool disk) where
    -- The files that a fetch of `e` makes are no other digest's.
    abbrev pub IsFresh : String → Type 0
    IsFresh e =
        IsOutside spool (src.spool_tmp e)
        × (lookup e spool.entries ≡ none → IsOutside spool (path_for src.dig spool e))

    serve_baseline-Delivers : IsFresh d → Delivers d (serve_baseline src d spool disk)
    unfolding serve_baseline
    serve_baseline-Delivers fresh =
        let x = get_or_spool src spool d disk in
        let (verified, committed) = get_or_spool-Spooled spool d disk good fresh.0 fresh.1 in
        elim (Result-cases x.0) [
          | inr (e, h) ↦ rw (serve_baseline, h) ((λ c q. ground arith), verified)
          | inl (path, h) ↦
              let (b, there, right) = verified d path (committed path h) in
              rw (serve_baseline, h, there) ((λ c q. ground (arith, right)), verified)
        ]

    serve_patch-Delivers :
        (entry : BlobEntry)
        → IsFresh entry.patch_from_digest
        → IsOutside (get_or_spool src spool entry.patch_from_digest disk).1 (src.scratch d)
        → Delivers d (serve_patch src d entry spool disk)
    unfolding serve_patch
    serve_patch-Delivers entry fresh out =
        let x = get_or_spool src spool entry.patch_from_digest disk in
        let (verified, committed) =
          get_or_spool-Spooled spool entry.patch_from_digest disk good fresh.0 fresh.1 in
        elim (Result-cases x.0) [
          | inr (e, h) ↦ rw (serve_patch, h) ((λ c q. ground arith), verified)
          | inl (path, h) ↦
              let (right, frame) = assemble-HasDigest d path x.2 in
              rw (serve_patch, h)
                (
                  right,
                  kept x.1 x.2 (assemble src d path x.2).1 verified (λ j p q. frame p (out j p q)),
                )
        ]

    -- GetBlob with a verified spool: a blob that is read to its end without an error has the digest
    -- that was asked for, whether it is shipped, patched or reused, and the spool stays verified. The
    -- temporary files, the scratch file and the file of a digest that is not spooled yet are no files
    -- of the spool.
    pub get_blob-Delivers :
        IsFresh d
        → ((entry : BlobEntry)
            → lookup d (entries src.sidecar.blobs) ≡ some entry
            → IsFresh entry.patch_from_digest
              × IsOutside (get_or_spool src spool entry.patch_from_digest disk).1 (src.scratch d))
        → Delivers d (get_blob src d spool disk)
    unfolding get_blob
    get_blob-Delivers fresh fresh_source =
        elim (Option-cases (lookup d (entries src.sidecar.blobs))) [
          | inl h ↦ rw (get_blob, h) (serve_baseline-Delivers fresh)
          | inr (entry, h) ↦ by_encoding entry h entry.encoding refl
        ]
      where
        by_encoding :
            (entry : BlobEntry)
            → lookup d (entries src.sidecar.blobs) ≡ some entry
            → (e : Encoding) → entry.encoding ≡ e
            → Delivers d (get_blob src d spool disk)
        by_encoding entry h full q = rw (get_blob, h, q) (serve_full-HasDigest d disk, good)
        by_encoding entry h patch q =
            rw (get_blob, h, q)
              (serve_patch-Delivers entry (fresh_source entry h).0 (fresh_source entry h).1)
        by_encoding entry h (unknown s) q = rw (get_blob, h, q) ((λ c r. ground arith), good)
