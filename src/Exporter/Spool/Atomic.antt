-- ===== src/Exporter/Spool/Atomic.antt =====
-- What spoolReader leaves on disk.
use diffah.Base.{
  ℕ, ◌+◌, String, Option, none, some, List, [], ◌∷◌, ◌++◌, ◌≡◌, ◌≢◌, ◌⊎◌, refl, sym, ap, subst, ◌∙◌,
  inl, inr, arith, length, length-append, Option-cases, eq_iff, eq_refl,
}
use mathlib.Core.List.{append_assoc, append-nil}
use diffah.Base.Int.{ℤ, pos}
use diffah.Base.Map.{lookup, insert, remove, lookup-insert, lookup-remove}
use diffah.Base.Disk.{Bytes, Disk}
use diffah.Diff.Errors.{Error, Result, ok, err, wrap}
use diffah.Exporter.Pool.{Os}
use diffah.Exporter.Spool.{
  Read, chunk, failed, refused, cancelled, all_bytes, read_error, Copied, append_chunk, appended,
  copy_reads, copy_start, spool_reader,
}

abbrev pub sum : List ℕ → ℕ
sum [] = 0
sum (x ∷ xs) = x + sum xs

sum-append : (xs ys : List ℕ) → sum (xs ++ ys) ≡ sum xs + sum ys
sum-append [] ys = omega arith
sum-append (x ∷ xs) ys = omega (arith, sum-append xs ys)

module _ (os : Os) (tmp dst : String) (disk : Disk) where
  -- The file has what was written, which is what was counted and reported.
  record Follows (written : Bytes) (c : Copied) : Type 0 where
    file : lookup tmp c.disk ≡ some written
    count : c.total ≡ length written
    reported : sum c.reports ≡ length written
    others : (x : String) → x ≢ tmp → lookup x c.disk ≡ lookup x disk

  abbrev Failed : List Read → Copied → Type 0
  Failed reads c =
      (e : Error) × (c.outcome ≡ some e)
      × (read_error reads ≢ none)
      × ((x : String) → x ≢ tmp → lookup x c.disk ≡ lookup x disk)

  abbrev Wrote : Bytes → Copied → Type 0
  Wrote written c = (c.outcome ≡ none) × Follows written c

  appended_disk :
      (written b : Bytes) (c : Copied)
      → lookup tmp c.disk ≡ some written
      → (appended tmp b c).disk ≡ insert tmp (written ++ b) c.disk
  unfolding appended
  appended_disk written b c h = rw (appended, h) refl

  appended-Follows :
      (written b : Bytes) (c : Copied)
      → Follows written c
      → Follows (written ++ b) (appended tmp b c)
  unfolding appended
  appended-Follows written b c f = record {
    file =
        ap (lookup tmp) (appended_disk written b c f.file)
        ∙ ground (arith, lookup-insert tmp tmp (written ++ b) c.disk, eq_refl tmp);
    count = omega (arith, f.count, length-append written b);
    reported =
        omega (arith, f.reported, sum-append c.reports (length b ∷ []), length-append written b);
    others = λ y ne.
        ap (lookup y) (appended_disk written b c f.file)
        ∙ (ground (arith, lookup-insert tmp y (written ++ b) c.disk, eq_iff tmp y, f.others y));
  }

  append_chunk-Wrote :
      (written b : Bytes) (c : Copied)
      → Wrote written c
      → Wrote (written ++ b) (append_chunk tmp b c)
  unfolding append_chunk appended
  append_chunk-Wrote written [] c (open_, f) =
      (open_, subst (λ w. Follows w c) (sym (append-nil written)) f)
  append_chunk-Wrote written (x ∷ b) c (open_, f) = (refl, appended-Follows written (x ∷ b) c f)

  copy_reads-cases :
      (reads : List Read) (written : Bytes) (c : Copied)
      → Wrote written c
      → ((read_error reads ≡ none) × Wrote (written ++ all_bytes reads) (copy_reads tmp reads c))
        ⊎ Failed reads (copy_reads tmp reads c)
  unfolding copy_reads
  copy_reads-cases [] written c h = inl (refl, subst (λ w. Wrote w c) (sym (append-nil written)) h)
  copy_reads-cases (cancelled e ∷ reads) written c (open_, f) =
      inr (e, refl, (λ q. ground arith), f.others)
  copy_reads-cases (refused b e ∷ reads) written c (open_, f) =
      inr (_, refl, (λ q. ground arith), (appended-Follows written b c f).others)
  copy_reads-cases (failed b e ∷ reads) written c h =
      inr (e, refl, (λ q. ground arith), (append_chunk-Wrote written b c h).1.others)
  copy_reads-cases (chunk b ∷ reads) written c h =
      subst
        (λ w.
          ((read_error reads ≡ none) × Wrote w (copy_reads tmp reads (append_chunk tmp b c)))
          ⊎ Failed reads (copy_reads tmp reads (append_chunk tmp b c)))
        (append_assoc written b (all_bytes reads))
        (copy_reads-cases reads (written ++ b) (append_chunk tmp b c)
          (append_chunk-Wrote written b c h))

  -- The whole blob is at `dst`, and all of it was counted and reported.
  abbrev pub Stored : List Read → Result ℤ × List ℕ × Disk → Type 0
  Stored reads (r, reports, disk') =
      (read_error reads ≡ none)
      × (r ≡ ok (pos (length (all_bytes reads))))
      × (sum reports ≡ length (all_bytes reads))
      × (lookup dst disk' ≡ some (all_bytes reads))

  -- Creating, syncing or closing the temporary file, or renaming it, went wrong.
  abbrev pub IsFaulty : Type 0
  IsFaulty =
      (os.create_error tmp ≢ none)
      ⊎ (os.sync_error tmp ≢ none)
      ⊎ (os.close_error tmp ≢ none)
      ⊎ (os.rename_error dst ≢ none)

  -- A read or a write, or one of these steps went wrong, and what is at `dst` was there before.
  abbrev pub Refused : List Read → Result ℤ × List ℕ × Disk → Type 0
  Refused reads (r, reports, disk') =
      ((e : Error) × (r ≡ err e))
      × ((read_error reads ≢ none) ⊎ IsFaulty)
      × (lookup dst disk' ≡ lookup dst disk)

  -- The temporary file is gone, unless it could not be created, and no other file is changed.
  abbrev pub Others : Result ℤ × List ℕ × Disk → Type 0
  Others (r, reports, disk') =
      ((lookup tmp disk' ≡ none) ⊎ ((os.create_error tmp ≢ none) × (disk' ≡ disk)))
      × ((x : String) → x ≢ tmp → x ≢ dst → lookup x disk' ≡ lookup x disk)

  abbrev Elsewhere : Disk → Type 0
  Elsewhere d = (x : String) → x ≢ tmp → lookup x d ≡ lookup x disk

  cleaned : (d : Disk) → Elsewhere d → Elsewhere (remove tmp d)
  cleaned d others x ne = ground (arith, lookup-remove tmp x d, eq_iff tmp x, others x)

  no_tmp : (d : Disk) → lookup tmp (remove tmp d) ≡ none
  no_tmp d = ground (arith, lookup-remove tmp tmp d, eq_refl tmp)

  renamed :
      (d : Disk) (b : Bytes)
      → Elsewhere d
      → (x : String) → x ≢ tmp
      → x ≢ dst
      → lookup x (insert dst b (remove tmp d)) ≡ lookup x disk
  renamed d b others x ne ne' =
      ground (arith, lookup-insert dst x b (remove tmp d), eq_iff dst x, cleaned d others x)

  abbrev the_copy : List Read → Copied
  the_copy reads = copy_reads tmp reads (copy_start tmp disk)

  abbrev Ends : List Read → Result ℤ × List ℕ × Disk → Type 0
  Ends reads r = Others r × (Stored reads r ⊎ Refused reads r)

  abbrev gave_up : List Read → Error → Result ℤ × List ℕ × Disk
  gave_up reads e = (err e, (the_copy reads).reports, remove tmp (the_copy reads).disk)

  -- The call fails past the creation of the temporary file, which it removes.
  gave_up-Ends :
      (reads : List Read) (e : Error)
      → tmp ≢ dst
      → Elsewhere (the_copy reads).disk
      → (read_error reads ≢ none) ⊎ IsFaulty
      → spool_reader os tmp dst reads disk ≡ gave_up reads e
      → Ends reads (spool_reader os tmp dst reads disk)
  gave_up-Ends reads e ne others why runs = subst (Ends reads) (sym runs) (
    (inl (no_tmp _), λ x h h'. cleaned _ others x h),
    inr ((e, refl), why, cleaned _ others dst (λ q. ne (sym q))),
  )

  abbrev whole_blob : List Read → Result ℤ × List ℕ × Disk
  whole_blob reads = (
    ok (pos (the_copy reads).total),
    (the_copy reads).reports,
    insert dst (all_bytes reads) (remove tmp (the_copy reads).disk),
  )

  whole_blob-Ends :
      (reads : List Read)
      → tmp ≢ dst
      → read_error reads ≡ none
      → Follows (all_bytes reads) (the_copy reads)
      → spool_reader os tmp dst reads disk ≡ whole_blob reads
      → Ends reads (spool_reader os tmp dst reads disk)
  whole_blob-Ends reads ne whole f runs =
      let d = (the_copy reads).disk in
      subst (Ends reads) (sym runs) (
        (
          inl (
              ground (
                arith,
                lookup-insert dst tmp (all_bytes reads) (remove tmp d),
                eq_iff dst tmp,
                no_tmp d,
              )),
          renamed _ (all_bytes reads) f.others,
        ),
        inl (
          whole,
          ap (λ n. ok (pos n)) f.count,
          f.reported,
          ground (arith, lookup-insert dst dst (all_bytes reads) (remove tmp d), eq_refl dst),
        ),
      )

  not_none : {o : Option Error} {e : Error} → o ≡ some e → o ≢ none
  not_none q k = cc

  -- spoolReader, for a temporary path that is not the destination's: it leaves no temporary file, if it
  -- could create one, and changes no other file; and either the whole blob is at the destination and was
  -- counted and reported, or the call fails and what is at the destination is unchanged. It fails only
  -- if a read or a write does, the context is done, or creating, syncing, closing or renaming fails.
  pub spool_reader-cases :
      (reads : List Read)
      → tmp ≢ dst
      → let r = spool_reader os tmp dst reads disk in Others r × (Stored reads r ⊎ Refused reads r)
  unfolding spool_reader
  spool_reader-cases reads ne = elim (Option-cases (os.create_error tmp)) [
    | inr (e, w) ↦
        let r : Result ℤ × List ℕ × Disk = (err (wrap "create target spool tmp" e), [], disk) in
        let runs : spool_reader os tmp dst reads disk ≡ r = rw (spool_reader, w) refl in
        subst (Ends reads) (sym runs)
          ((inr (not_none w, refl), λ x h h'. refl), inr ((_, refl), inr (inl (not_none w)), refl))
    | inl made ↦ elim (copy_reads-cases reads [] (copy_start tmp disk) (refl, begun)) [
      | inr (e, o, why, others) ↦
          gave_up-Ends reads e ne others (inl why) (rw (spool_reader, made, o) refl)
      | inl (whole, (open_, f)) ↦ elim (Option-cases (os.sync_error tmp)) [
        | inr (e, w) ↦
            gave_up-Ends reads (wrap "sync target spool" e) ne f.others
              (inr (inr (inl (not_none w)))) (rw (spool_reader, made, open_, w) refl)
        | inl synced ↦ elim (Option-cases (os.close_error tmp)) [
          | inr (e, w) ↦
              gave_up-Ends reads (wrap "close target spool" e) ne f.others
                (inr (inr (inr (inl (not_none w)))))
                (rw (spool_reader, made, open_, synced, w) refl)
          | inl closed ↦ elim (Option-cases (os.rename_error dst)) [
            | inr (e, w) ↦
                gave_up-Ends reads (wrap "rename target spool" e) ne f.others
                  (inr (inr (inr (inr (not_none w)))))
                  (rw (spool_reader, made, open_, synced, closed, w) refl)
            | inl w ↦
                whole_blob-Ends reads ne whole f
                  (rw (spool_reader, made, open_, synced, closed, w, f.file) refl)
          ]
        ]
      ]
    ]
  ]
    where
      begun : Follows [] (copy_start tmp disk)
      begun = record {
        file = ground (arith, lookup-insert tmp tmp [] disk, eq_refl tmp);
        count = refl;
        reported = refl;
        others = λ x ne. ground (arith, lookup-insert tmp x [] disk, eq_iff tmp x);
      }
