-- ===== src/Archive/Reader/Sidecars.antt =====
-- The sidecar that Extract returns and the one that ReadSidecar returns.
use diffah.Base.{
  String, true, false, Option, none, some, List, [], ◌∷◌, ◌≡◌, ◌⊎◌, arith, eq_iff, ◌==◌, All, inl,
  inr,
}
use diffah.Base.Disk.{Bytes, Disk}
use diffah.Diff.Errors.{Error, Result, ok, err, Result-cases}
use diffah.Archive.Reader.{
  Entry, Tar, Readers, Writers, sidecar_filename, open_archive, read_all, at_end, extract_from,
  extract, go_on, read_sidecar_from, read_sidecar,
}

abbrev IsSidecar : Entry → Type 0
IsSidecar x = x.name ≡ sidecar_filename

abbrev NoSidecar : List Entry → Type 0
NoSidecar = All (λ (x : Entry). ¬ IsSidecar x)

-- At most one entry is named as the sidecar.
abbrev pub OneSidecar : List Entry → Type 0
OneSidecar [] = Unit
OneSidecar (x ∷ entries) =
    (IsSidecar x × NoSidecar entries) ⊎ ((¬ IsSidecar x) × OneSidecar entries)

go_on-ok :
    (m : Result (Unit {0}) × Disk) (k : Disk → Result Bytes × Disk) (raw : Bytes)
    → (go_on m k).0 ≡ ok raw
    → (d : Disk) × ((k d).0 ≡ ok raw)
unfolding go_on
go_on-ok (err e, d) k raw h = absurd (ground arith)
go_on-ok (ok _, d) k raw h = (d, h)

at_end-ok :
    (path : String) (ending : Option Error) (sidecar : Option Bytes) (raw : Bytes)
    → at_end path ending sidecar ≡ ok raw
    → sidecar ≡ some raw
unfolding at_end
at_end-ok path (some e) sidecar raw h = absurd (ground arith)
at_end-ok path none none raw h = absurd (ground arith)
at_end-ok path none (some s) raw h = ground arith

not_sidecar : (x : Entry) → (¬ IsSidecar x) → (x.name == sidecar_filename) ≡ false
not_sidecar x other = ground (arith, eq_iff x.name sidecar_filename)

module _ (fs : Writers) (dest path : String) (ending : Option Error) (raw : Bytes) where
  file_first :
      (x : Entry) (entries : List Entry) (sidecar : Option Bytes) (disk : Disk)
      → (¬ IsSidecar x)
      → (extract_from fs dest path (x ∷ entries) ending sidecar disk).0 ≡ ok raw
      → (d : Disk) × ((extract_from fs dest path entries ending sidecar d).0 ≡ ok raw)
  unfolding extract_from
  file_first x entries sidecar disk other h =
      go_on-ok _ (λ d. extract_from fs dest path entries ending sidecar d) raw
        (rw (extract_from, not_sidecar x other) at h)

  extract_from-NoSidecar :
      (entries : List Entry) (sidecar : Option Bytes) (disk : Disk)
      → NoSidecar entries
      → (extract_from fs dest path entries ending sidecar disk).0 ≡ ok raw
      → sidecar ≡ some raw
  unfolding extract_from
  extract_from-NoSidecar [] sidecar disk others h = at_end-ok path ending sidecar raw h
  extract_from-NoSidecar (x ∷ entries) sidecar disk others h =
      let (d, k) = file_first x entries sidecar disk others.0 h in
      extract_from-NoSidecar entries sidecar d others.1 k

  extract_from-OneSidecar :
      (entries : List Entry) (disk : Disk)
      → OneSidecar entries
      → (extract_from fs dest path entries ending none disk).0 ≡ ok raw
      → read_sidecar_from path entries ending ≡ ok raw
  unfolding extract_from read_sidecar_from
  extract_from-OneSidecar [] disk one h = h
  extract_from-OneSidecar (x ∷ entries) disk (inr (other, one)) h =
      let (d, k) = file_first x entries none disk other h in
      rw (read_sidecar_from, not_sidecar x other) (extract_from-OneSidecar entries d one k)
  extract_from-OneSidecar (x ∷ entries) disk (inl (here, others)) h =
      let found : (x.name == sidecar_filename) ≡ true = (eq_iff x.name sidecar_filename).1 here in
      elim (Result-cases (read_all x)) [
        | inr (e, q) ↦ absurd (failing (rw (extract_from, found, q) at h))
        | inl (read, q) ↦
            rw (read_sidecar_from, found, q)
              (same (
                extract_from-NoSidecar entries (some read) disk others
                  (rw (extract_from, found, q) at h)))
      ]
    where
      failing : {e : Error} → ◌≡◌ {A = Result Bytes} (err e) (ok raw) → ⊥
      failing k = cc

      same : {read : Bytes} → some read ≡ some raw → ok read ≡ ok raw
      same k = cc

-- If at most one entry of the archive is named as the sidecar, then ReadSidecar returns the sidecar that
-- Extract returns.
pub read_sidecar-extract :
    (fs : Writers) (dest path : String) (raw : Bytes) (r : Readers) (t : Tar) (disk : Disk)
    → open_archive r path ≡ ok t
    → OneSidecar t.entries
    → (extract fs dest r path disk).0 ≡ ok raw
    → read_sidecar r path ≡ ok raw
unfolding extract read_sidecar
read_sidecar-extract fs dest path raw r t disk opened one h =
    rw (read_sidecar, opened)
      (extract_from-OneSidecar fs dest path t.ending raw t.entries disk one
        (rw (extract, opened) at h))
