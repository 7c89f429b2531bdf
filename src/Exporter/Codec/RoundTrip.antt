-- ===== src/Exporter/Codec/RoundTrip.antt =====
-- DecodeStream undoes EncodeStream, for a zstd program that undoes itself.
use diffah.Base.{
  String, true, Option, some, [], ◌∷◌, ◌≡◌, ◌≢◌, refl, sym, arith, inl, inr, Option-cases, eq_iff,
  eq_refl,
}
use diffah.Base.Map.{lookup, insert, lookup-insert, lookup-remove}
use diffah.Base.Disk.{Bytes, Disk, byte_size}
use diffah.Diff.Errors.{ok, Result-cases}
use diffah.Exporter.Codec.{
  EncodeOpts, Zstd, eq_bytes, write_patch, patch_bytes, unpatch, encode_stream, decode_stream,
}

-- What zstd documents: a patch that was made against a reference decodes against it to what was
-- encoded. A frame has a header, and a frame of something is not the frame of nothing.
pub record IsZstd (z : Zstd) : Type 0 where
  pub decode-encode :
      (opts : EncodeOpts) (ref : Option Bytes) (b p : Bytes)
      → z.encode opts ref b ≡ ok p
      → z.decode ref p ≡ ok b
  pub encode_not_empty :
      (opts : EncodeOpts) (ref : Option Bytes) (b p : Bytes)
      → z.encode opts ref b ≡ ok p
      → p ≢ z.empty_frame
  pub has_header :
      (opts : EncodeOpts) (ref : Option Bytes) (b p : Bytes) → z.encode opts ref b ≡ ok p → p ≢ []
  pub empty_has_header : z.empty_frame ≢ []

eq_bytes-true : (b c : Bytes) → eq_bytes b c ≡ true → b ≡ c
unfolding eq_bytes
eq_bytes-true [] [] h = refl
eq_bytes-true [] (y ∷ c) h = ground arith
eq_bytes-true (x ∷ b) [] h = ground arith
eq_bytes-true (x ∷ b) (y ∷ c) h = ground (arith, eq_bytes-true b c)

eq_bytes_refl : (b : Bytes) → eq_bytes b b ≡ true
unfolding eq_bytes
eq_bytes_refl [] = refl
eq_bytes_refl (x ∷ b) = ground (arith, eq_bytes_refl b)

module _ (z : Zstd) (good : IsZstd z) (opts : EncodeOpts) (ref : Option Bytes) where
  -- A patch gives back what it was made from, the empty file included.
  pub unpatch-patch_bytes :
      (target p : Bytes) → patch_bytes z opts ref target ≡ ok p → unpatch z ref p ≡ ok target
  unfolding unpatch patch_bytes
  unpatch-patch_bytes [] p h = ground (arith, eq_bytes_refl z.empty_frame)
  unpatch-patch_bytes (x ∷ b) p h = ground (
    arith,
    eq_bytes-true p z.empty_frame,
    good.decode-encode opts ref (x ∷ b) p h,
    good.encode_not_empty opts ref (x ∷ b) p h,
  )

  pub patch_bytes_not_nil : (target p : Bytes) → patch_bytes z opts ref target ≡ ok p → p ≢ []
  unfolding patch_bytes
  patch_bytes_not_nil [] p h = ground (arith, good.empty_has_header)
  patch_bytes_not_nil (x ∷ b) p h = good.has_header opts ref (x ∷ b) p h

pub decode_stream_writes :
    (z : Zstd) (ref_path patch_path out_path : String) (disk : Disk) (target p : Bytes)
    → lookup patch_path disk ≡ some p
    → unpatch z (lookup ref_path disk) p ≡ ok target
    → decode_stream z ref_path patch_path out_path disk
      ≡ (ok (byte_size target), insert out_path target disk)
unfolding decode_stream write_patch
decode_stream_writes z ref_path patch_path out_path disk target p there h =
    rw (decode_stream, there, h) refl

-- Where the patch for a target on disk can be made, EncodeStream and then DecodeStream, against the
-- same reference, write the target's bytes to the output path and return their number. The patch's
-- path is not the reference's.
pub decode_stream-encode_stream :
    (z : Zstd) (opts : EncodeOpts) (ref_path target_path patch_path out_path : String) (disk : Disk)
    (target p : Bytes)
    → IsZstd z
    → patch_path ≢ ref_path
    → lookup target_path disk ≡ some target
    → patch_bytes z opts (lookup ref_path disk) target ≡ ok p
    → let (r, disk') = encode_stream z opts ref_path target_path patch_path disk in
      (r ≡ ok (byte_size p))
      × (decode_stream z ref_path patch_path out_path disk'
          ≡ (ok (byte_size target), insert out_path target disk'))
unfolding encode_stream decode_stream write_patch
decode_stream-encode_stream z opts ref_path target_path patch_path out_path disk target p good apart
      there made =
    let disk' = insert patch_path p disk in
    rw (encode_stream, there, made)
      (
        refl,
        decode_stream_writes z ref_path patch_path out_path disk' target p
            (ground (arith, lookup-insert patch_path patch_path p disk, eq_refl patch_path))
            (rw (sym (kept apart))
              (unpatch-patch_bytes z good opts (lookup ref_path disk) target p made)),
      )
  where
    kept : patch_path ≢ ref_path → lookup ref_path disk ≡ lookup ref_path (insert patch_path p disk)
    kept ne = ground (arith, lookup-insert patch_path ref_path p disk, eq_iff patch_path ref_path)

-- Only the output path changes.
pub decode_stream_frame :
    (z : Zstd) (ref_path patch_path out_path x : String) (disk : Disk)
    → x ≢ out_path
    → lookup x (decode_stream z ref_path patch_path out_path disk).1 ≡ lookup x disk
unfolding decode_stream write_patch
decode_stream_frame z ref_path patch_path out_path x disk ne =
    elim (Option-cases (lookup patch_path disk)) [
      | inl h ↦ rw (decode_stream, h) refl
      | inr (p, h) ↦ elim (Result-cases (unpatch z (lookup ref_path disk) p)) [
        | inl (b, u) ↦
            rw (decode_stream, h, u)
              (ground (arith, lookup-insert out_path x b disk, eq_iff out_path x))
        | inr (e, u) ↦
            rw (decode_stream, h, u)
              (ground (arith, lookup-remove out_path x disk, eq_iff out_path x))
      ]
    ]
