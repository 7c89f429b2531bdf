-- ===== src/Archive/Reader/Extracted.antt =====
-- Where Extract writes.
use diffah.Base.{
  String, Option, none, some, List, [], ◌∷◌, ◌≡◌, ◌≢◌, refl, arith, eq_iff, ◌==◌, ◌∙◌, Bool-cases,
  Option-cases, inl, inr,
}
use diffah.Base.Map.{lookup, lookup-insert}
use diffah.Base.Disk.{Bytes, Disk}
use diffah.Diff.Errors.{Error, Result, ok, err, Result-cases}
use diffah.Archive.Clean.{safe_join}
use diffah.Archive.Clean.Inside.{IsInside, safe_join-IsInside}
use diffah.Archive.Reader.{
  Entry, Readers, Writers, sidecar_filename, open_archive, read_all, write_file, write_entry,
  extract_entry, extract_from, extract, go_on,
}

module _ (fs : Writers) (dest j : String) where
  write_file-other :
      (path : String) (x : Entry) (disk : Disk)
      → j ≢ path
      → lookup j (write_file fs dest path x disk).1 ≡ lookup j disk
  unfolding write_file
  write_file-other path x disk other = elim (Option-cases (fs.create_error path)) [
    | inr (e, q) ↦ rw (write_file, q) refl
    | inl q ↦
        rw (write_file, q)
          (ground (arith, eq_iff path j, lookup-insert path j (fs.written path x.body).0 disk))
  ]

  write_entry-other :
      (x : Entry) (target : String) (disk : Disk)
      → j ≢ target
      → lookup j (write_entry fs dest x target disk).1 ≡ lookup j disk
  unfolding write_entry
  write_entry-other x target disk other = elim (Bool-cases (x.is_dir)) [
    | inl dir ↦ rw (write_entry, dir) refl
    | inr file ↦ elim (Option-cases (fs.mkdir_parent_error target)) [
      | inr (e, q) ↦ rw (write_entry, file, q) refl
      | inl q ↦ rw (write_entry, file, q) (write_file-other target x disk other)
    ]
  ]

  extract_entry-outside :
      (x : Entry) (disk : Disk)
      → (¬ IsInside dest j)
      → lookup j (extract_entry fs dest x disk).1 ≡ lookup j disk
  unfolding extract_entry
  extract_entry-outside x disk outside = elim (Result-cases (safe_join dest x.name)) [
    | inr (e, q) ↦ rw (extract_entry, q) refl
    | inl (target, q) ↦
        rw (extract_entry, q)
          (write_entry-other x target disk
            (λ e. outside (rw e (safe_join-IsInside dest x.name target q))))
  ]

  go_on-outside :
      (disk : Disk) (m : Result (Unit {0}) × Disk) (k : Disk → Result Bytes × Disk)
      → lookup j m.1 ≡ lookup j disk
      → ((d : Disk) → lookup j (k d).1 ≡ lookup j d)
      → lookup j (go_on m k).1 ≡ lookup j disk
  unfolding go_on
  go_on-outside disk (err e, d) k h kept = h
  go_on-outside disk (ok _, d) k h kept = kept d ∙ h

  extract_from-outside :
      (path : String) (entries : List Entry) (ending : Option Error) (sidecar : Option Bytes)
      (disk : Disk)
      → (¬ IsInside dest j)
      → lookup j (extract_from fs dest path entries ending sidecar disk).1 ≡ lookup j disk
  unfolding extract_from extract_entry
  extract_from-outside path [] ending sidecar disk outside = refl
  extract_from-outside path (x ∷ entries) ending sidecar disk outside =
      elim (Bool-cases (x.name == sidecar_filename)) [
        | inl side ↦ elim (Result-cases (read_all x)) [
          | inr (e, q) ↦ rw (extract_from, side, q) refl
          | inl (raw, q) ↦
              rw (extract_from, side, q)
                (extract_from-outside path entries ending (some raw) disk outside)
        ]
        | inr file ↦
            rw (extract_from, file)
              (go_on-outside disk (extract_entry fs dest x disk)
                (λ d. extract_from fs dest path entries ending sidecar d)
                (extract_entry-outside x disk outside)
                (λ d. extract_from-outside path entries ending sidecar d outside))
      ]

  -- Whatever an archive contains, and also where Extract fails, it changes no file but the
  -- destination itself and those below it.
  pub extract-outside :
      (r : Readers) (path : String) (disk : Disk)
      → (¬ IsInside dest j)
      → lookup j (extract fs dest r path disk).1 ≡ lookup j disk
  unfolding extract
  extract-outside r path disk outside = elim (Result-cases (open_archive r path)) [
    | inr (e, q) ↦ rw (extract, q) refl
    | inl (t, q) ↦ rw (extract, q) (extract_from-outside path t.entries t.ending none disk outside)
  ]
