-- ===== src/Archive/Reader/Blobs.antt =====
-- The blobs that ReadSidecarAndManifestBlobs returns.
use diffah.Base.{
  String, true, false, Option, none, some, List, [], ◌∷◌, ◌≡◌, refl, sym, subst, ◌∙◌, arith, eq_iff,
  ◌==◌, All, In, Bool-cases, Option-cases, inl, inr, if◌then◌else◌, All-weaken,
}
use diffah.Base.Map.{Map, lookup, insert, lookup-insert, has}
use diffah.Base.Disk.{Bytes}
use diffah.Diff.Errors.{Error, Result, ok, err, Result-cases}
use diffah.Archive.Reader.{
  Entry, Tar, Readers, sidecar_filename, open_archive, read_all, at_end, blob_tar_path, wanted,
  all_found, read_blobs_from, read_sidecar_and_manifest_blobs,
}

-- The bytes are those of an entry at the digest's path.
abbrev pub IsEntryOf : List Entry → String → Bytes → Type 0
IsEntryOf entries d body =
    (x : Entry) × In x entries × (x.name ≡ blob_tar_path d) × (read_all x ≡ ok body)

abbrev IsWanted : Map String → Type 0
IsWanted want = (name d : String) → lookup name want ≡ some d → name ≡ blob_tar_path d

abbrev AreEntries : List Entry → Map Bytes → Type 0
AreEntries entries got =
    (d : String) (body : Bytes) → lookup d got ≡ some body → IsEntryOf entries d body

wanted-IsWanted :
    (digests : List String) (want : Map String) → IsWanted want → IsWanted (wanted digests want)
unfolding wanted
wanted-IsWanted [] want h = h
wanted-IsWanted (d ∷ digests) want h =
    wanted-IsWanted digests (insert (blob_tar_path d) d want) (λ name e q.
      ground (
        arith,
        h name e,
        lookup-insert (blob_tar_path d) name d want,
        eq_iff (blob_tar_path d) name,
      ))

insert-AreEntries :
    (all : List Entry) (d : String) (body : Bytes) (got : Map Bytes)
    → IsEntryOf all d body
    → AreEntries all got
    → AreEntries all (insert d body got)
insert-AreEntries all d body got here h e b q = elim (Bool-cases (d == e)) [
  | inl same ↦
      subst (λ f. IsEntryOf all f b) ((eq_iff d e).0 same)
        (subst (IsEntryOf all d) (stored same (sym (lookup-insert d e body got) ∙ q)) here)
  | inr other ↦ h e b (kept other (sym (lookup-insert d e body got) ∙ q))
]
  where
    stored :
        (d == e) ≡ true
        → ◌≡◌ {A = Option Bytes} (if d == e then some body else lookup e got) (some b)
        → body ≡ b
    stored same k = ground arith

    kept :
        (d == e) ≡ false
        → (if d == e then some body else lookup e got) ≡ some b
        → lookup e got ≡ some b
    kept other k = ground arith

all_found-lookup :
    (digests : List String) (got : Map Bytes)
    → all_found digests got ≡ ok tt
    → All (λ d. (body : Bytes) × (lookup d got ≡ some body)) digests
unfolding all_found
all_found-lookup [] got h = tt
all_found-lookup (d ∷ digests) got h = elim (Option-cases (lookup d got)) [
  | inl q ↦ absurd (missing (rw (all_found, has, q) at h))
  | inr (body, q) ↦ ((body, q), all_found-lookup digests got (rw (all_found, has, q) at h))
]
  where
    missing : {e : Error} → ◌≡◌ {A = Result (Unit {0})} (err e) (ok tt) → ⊥
    missing k = cc

module _ (path : String) (want : Map String) (all : List Entry) (ending : Option Error)
    (raw : Bytes) (end : Map Bytes) where
  read_blobs_from-AreEntries :
      (entries : List Entry) (sidecar : Option Bytes) (got : Map Bytes)
      → ((x : Entry) → In x entries → In x all)
      → IsWanted want
      → AreEntries all got
      → read_blobs_from path want entries ending sidecar got ≡ ok (raw, end)
      → AreEntries all end
  unfolding read_blobs_from
  read_blobs_from-AreEntries [] sidecar got part right h q =
      elim (Result-cases (at_end path ending sidecar)) [
        | inr (e, k) ↦ absurd (failing (rw (read_blobs_from, k) at q))
        | inl (read, k) ↦ subst (AreEntries all) (same (rw (read_blobs_from, k) at q)) h
      ]
    where
      failing : {e : Error} → ◌≡◌ {A = Result (Bytes × Map Bytes)} (err e) (ok (raw, end)) → ⊥
      failing k = cc

      same :
          {read : Bytes}
          → ◌≡◌ {A = Result (Bytes × Map Bytes)} (ok (read, got)) (ok (raw, end))
          → got ≡ end
      same k = cc
  read_blobs_from-AreEntries (x ∷ entries) sidecar got part right h q =
      elim (Bool-cases (x.name == sidecar_filename)) [
        | inl side ↦ elim (Result-cases (read_all x)) [
          | inr (e, k) ↦ absurd (failing (rw (read_blobs_from, side, k) at q))
          | inl (read, k) ↦
              read_blobs_from-AreEntries entries (some read) got later right h
                (rw (read_blobs_from, side, k) at q)
        ]
        | inr file ↦ elim (Option-cases (lookup x.name want)) [
          | inl unwanted ↦
              read_blobs_from-AreEntries entries sidecar got later right h
                (rw (read_blobs_from, file, unwanted) at q)
          | inr (d, k) ↦ elim (Result-cases (read_all x)) [
            | inr (e, l) ↦ absurd (failing (rw (read_blobs_from, file, k, l) at q))
            | inl (body, l) ↦
                read_blobs_from-AreEntries entries sidecar (insert d body got) later right
                  (insert-AreEntries all d body got (x, part x (inl refl), right x.name d k, l) h)
                  (rw (read_blobs_from, file, k, l) at q)
          ]
        ]
      ]
    where
      later : (y : Entry) → In y entries → In y all
      later y m = part y (inr m)

      failing : {e : Error} → ◌≡◌ {A = Result (Bytes × Map Bytes)} (err e) (ok (raw, end)) → ⊥
      failing k = cc

-- Where ReadSidecarAndManifestBlobs succeeds, every digest that was asked for has bytes, and they are
-- those of an entry of the archive that stands at the digest's path and was read to its end.
pub read_sidecar_and_manifest_blobs-entries :
    (r : Readers) (path : String) (digests : List String) (t : Tar) (raw : Bytes) (got : Map Bytes)
    → open_archive r path ≡ ok t
    → read_sidecar_and_manifest_blobs r path digests ≡ ok (raw, got)
    → All
        (λ (d : String). (body : Bytes) × (lookup d got ≡ some body) × IsEntryOf t.entries d body)
        digests
unfolding read_sidecar_and_manifest_blobs
read_sidecar_and_manifest_blobs-entries r path digests t raw got opened h =
    elim (Result-cases (read_blobs_from path (wanted digests []) t.entries t.ending none [])) [
      | inr (e, q) ↦ absurd (failing (rw (read_sidecar_and_manifest_blobs, opened, q) at h))
      | inl ((read, all), q) ↦ elim (Result-cases (all_found digests all)) [
        | inr (e, k) ↦ absurd (failing (rw (read_sidecar_and_manifest_blobs, opened, q, k) at h))
        | inl (_, k) ↦
            delivered read all q k (rw (read_sidecar_and_manifest_blobs, opened, q, k) at h)
      ]
    ]
  where
    failing : {e : Error} → ◌≡◌ {A = Result (Bytes × Map Bytes)} (err e) (ok (raw, got)) → ⊥
    failing k = cc

    delivered :
        (read : Bytes) (all : Map Bytes)
        → read_blobs_from path (wanted digests []) t.entries t.ending none [] ≡ ok (read, all)
        → all_found digests all ≡ ok tt
        → ◌≡◌ {A = Result (Bytes × Map Bytes)} (ok (read, all)) (ok (raw, got))
        → All
            (λ (d : String).
              (body : Bytes) × (lookup d got ≡ some body) × IsEntryOf t.entries d body)
            digests
    delivered read all q k same =
        let are =
          read_blobs_from-AreEntries path (wanted digests []) t.entries t.ending read all t.entries
            none [] (λ x m. m) (wanted-IsWanted digests [] (λ name d z. absurd (ground arith)))
            (λ d body z. absurd (ground arith)) q in
        let equal : all ≡ got = cc in
        subst
          (λ (m : Map Bytes).
            All
              (λ (d : String).
                (body : Bytes) × (lookup d m ≡ some body) × IsEntryOf t.entries d body)
              digests)
          equal
          (All-weaken _ _ digests (λ d p. (p.0, p.1, are d p.0 p.1))
            (all_found-lookup digests all k))
