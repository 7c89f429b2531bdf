-- ===== src/Exporter/Pool/Refinement.antt =====
-- The operations of the pool fill the map that it promises.
use diffah.Base.{
  String, true, false, Option, none, some, ◌≡◌, ◌≢◌, ◌⊎◌, refl, sym, ap, ◌∙◌, inl, inr, arith,
  Bool-cases, Option-cases, eq_iff, eq_refl, ◌==◌, if◌then◌else◌,
}
use diffah.Base.Map.{lookup, has, insert, remove, lookup-insert, lookup-remove}
use diffah.Base.Disk.{Bytes, Disk, join}
use diffah.Diff.Types.{BlobEntry}
use diffah.Diff.Errors.{ok}
use diffah.Exporter.Types.{Digester}
use diffah.Exporter.Pool.{
  BlobPool, Os, Outcome, half_written, register, add_entry_if_absent, add_entry_from_path,
}
use diffah.Exporter.Pool.View.{view, IsGoodPool, Adds, register-Adds, kept_files}

-- The map after the first call for `d` has filled it.
abbrev pub put_absent :
    String
    → Bytes × BlobEntry
    → (String → Option (Bytes × BlobEntry))
    → String
    → Option (Bytes × BlobEntry)
put_absent d v m j = if d == j then elim (m d) [ none ↦ some v | some w ↦ some w ] else m j

module _ (d : String) (v : Bytes × BlobEntry) (m : String → Option (Bytes × BlobEntry)) where
  put_absent-held : (w : Bytes × BlobEntry) (j : String) → m d ≡ some w → m j ≡ put_absent d v m j
  put_absent-held w j h = elim (Bool-cases (d == j)) [
    | inl q ↦ rw (q, h) (sym (ap m ((eq_iff d j).0 q)) ∙ h)
    | inr q ↦ rw q refl
  ]

  put_absent-fresh :
      (j : String) → m d ≡ none → (if d == j then some v else m j) ≡ put_absent d v m j
  put_absent-fresh j h = rw h refl

module _ (dig : Digester) (p : BlobPool) (d : String) (disk : Disk) where
  -- A digest that is registered has a payload and an entry.
  pub registered :
      IsGoodPool dig p disk
      → has d p.spills ≡ true
      → (v : Bytes × BlobEntry) × (view p disk d ≡ some v)
  registered good h = elim (Option-cases (lookup d p.spills)) [
    | inl n ↦ absurd (ground arith)
    | inr (path, n) ↦ elim (Option-cases (lookup path disk)) [
      | inl m ↦ absurd (ground (arith, good.on_disk d path))
      | inr (payload, m) ↦ elim (Option-cases (lookup d p.entries)) [
        | inl k ↦ absurd (ground (arith, good.same_keys d))
        | inr (f, k) ↦ ((payload, f), ground arith)
      ]
    ]
  ]

  -- A digest that is not registered has none.
  pub unregistered : has d p.spills ≡ false → view p disk d ≡ none
  unregistered h = ground arith

module _ (os : Os) (dig : Digester) (p : BlobPool) (d : String) (e : BlobEntry) (disk : Disk) where
  -- A call that returns has filled the map; one that fails has left the pool and the files as they
  -- were, and `fault` holds.
  abbrev pub Refines : Bytes → Type 0 → Outcome → Type 0
  Refines payload fault x =
      IsGoodPool dig x.1 x.2
      × (((x.0 ≡ ok tt)
            × ((j : String) → view x.1 x.2 j ≡ put_absent d (payload, e) (view p disk) j))
          ⊎ ((x.0 ≢ ok tt) × fault × (x.1 ≡ p) × (x.2 ≡ disk)))

  held :
      IsGoodPool dig p disk
      → has d p.spills ≡ true
      → (payload : Bytes) (j : String) → view p disk j ≡ put_absent d (payload, e) (view p disk) j
  held good h payload j =
      let (w, there) = registered dig p d disk good h in
      put_absent-held d (payload, e) (view p disk) w j there

  fresh :
      (payload : Bytes) (p' : BlobPool) (disk' : Disk)
      → has d p.spills ≡ false
      → Adds dig p disk d payload e p' disk'
      → (j : String) → view p' disk' j ≡ put_absent d (payload, e) (view p disk) j
  fresh payload p' disk' h adds j =
      adds.added j ∙ put_absent-fresh d (payload, e) (view p disk) j (unregistered dig p d disk h)

  -- A file that is another digest's is not the new one's.
  abbrev pub HasOwnFile : Type 0
  HasOwnFile = (j path : String) → lookup j p.spills ≡ some path → path ≢ join p.dir (dig.encoded d)

  written :
      (payload : Bytes)
      → HasOwnFile
      → (j path : String) → lookup j p.spills ≡ some path
      → lookup path (insert (join p.dir (dig.encoded d)) payload disk) ≡ lookup path disk
  written payload own j path h =
      let dst = join p.dir (dig.encoded d) in
      ground (arith, lookup-insert dst path payload disk, eq_iff dst path, own j path)

  other_file :
      (b : Bytes) (path : String)
      → path ≢ join p.dir (dig.encoded d)
      → lookup path (insert (join p.dir (dig.encoded d)) b disk) ≡ lookup path disk
  other_file b path ne =
      let dst = join p.dir (dig.encoded d) in
      ground (arith, lookup-insert dst path b disk, eq_iff dst path)

  -- What a failing write leaves is in the new digest's file alone.
  half_written_kept :
      HasOwnFile
      → (j path : String) → lookup j p.spills ≡ some path
      → lookup path (half_written os (join p.dir (dig.encoded d)) disk) ≡ lookup path disk
  unfolding half_written
  half_written_kept own j path h =
      let dst = join p.dir (dig.encoded d) in
      elim (Option-cases (os.left_behind dst)) [
        | inl q ↦ rw (half_written, q) refl
        | inr (b, q) ↦ rw (half_written, q) (written b own j path h)
      ]

  half_written_others :
      (path : String)
      → path ≢ join p.dir (dig.encoded d)
      → lookup path (half_written os (join p.dir (dig.encoded d)) disk) ≡ lookup path disk
  unfolding half_written
  half_written_others path ne =
      let dst = join p.dir (dig.encoded d) in
      elim (Option-cases (os.left_behind dst)) [
        | inl q ↦ rw (half_written, q) refl
        | inr (b, q) ↦ rw (half_written, q) (other_file b path ne)
      ]

  -- The call has filled the map, or the write has failed and the map and the pool are as they were;
  -- only the file of the digest may have changed.
  abbrev pub Writes : Bytes → Outcome → Type 0
  Writes payload x =
      IsGoodPool dig x.1 x.2
      × (((x.0 ≡ ok tt)
            × ((j : String) → view x.1 x.2 j ≡ put_absent d (payload, e) (view p disk) j))
          ⊎ ((x.0 ≢ ok tt)
              × (os.write_error (join p.dir (dig.encoded d)) ≢ none)
              × (x.1 ≡ p)
              × ((j : String) → view x.1 x.2 j ≡ view p disk j)))
      × ((path : String) → path ≢ join p.dir (dig.encoded d) → lookup path x.2 ≡ lookup path disk)

  -- In a good pool, where the file of a digest that is not registered is no other digest's:
  -- addEntryIfAbsent fills the map that the pool promises with the payload and the entry, unless it had
  -- the digest, or it fails, which it does only where the write fails. Then the pool and its map
  -- are as they were, whatever part of the payload was written. No file but the digest's is changed.
  pub add_entry_if_absent-Writes :
      (payload : Bytes)
      → IsGoodPool dig p disk
      → (has d p.spills ≡ false → HasOwnFile)
      → Writes payload (add_entry_if_absent os dig p d payload e disk)
  unfolding add_entry_if_absent
  add_entry_if_absent-Writes payload good own = elim (Bool-cases (has d p.spills)) [
    | inl h ↦ rw (add_entry_if_absent, h) (good, inl (refl, held good h payload), λ path ne. refl)
    | inr h ↦
        let dst = join p.dir (dig.encoded d) in
        elim (Option-cases (os.write_error (join p.dir (dig.encoded d)))) [
          | inl w ↦
              let adds =
                register-Adds dig p d payload e disk (insert dst payload disk) good h
                  (written payload (own h))
                  (ground (arith, lookup-insert dst dst payload disk, eq_refl dst)) in
              rw (add_entry_if_absent, h, w)
                (
                  adds.good,
                  inl (refl, fresh payload (register p d dst e) (insert dst payload disk) h adds),
                  other_file payload,
                )
          | inr (x, w) ↦
              let (good', same) =
                kept_files dig p disk (half_written os dst disk) good (half_written_kept (own h)) in
              rw (add_entry_if_absent, h, w)
                (
                  good',
                  inr ((λ q. ground arith), (λ q. ground arith), refl, same),
                  half_written_others,
                )
        ]
  ]

  moved :
      (src : String) (payload : Bytes)
      → HasOwnFile
      → ((j path : String) → lookup j p.spills ≡ some path → path ≢ src)
      → (j path : String) → lookup j p.spills ≡ some path
      → lookup path (insert (join p.dir (dig.encoded d)) payload (remove src disk))
        ≡ lookup path disk
  moved src payload own apart j path h =
      let dst = join p.dir (dig.encoded d) in
      ground (
        arith,
        lookup-insert dst path payload (remove src disk),
        lookup-remove src path disk,
        eq_iff dst path,
        eq_iff src path,
        own j path,
        apart j path,
      )

  removed :
      (src : String)
      → ((j path : String) → lookup j p.spills ≡ some path → path ≢ src)
      → (j path : String) → lookup j p.spills ≡ some path
      → lookup path (remove src disk) ≡ lookup path disk
  removed src apart j path h =
      ground (arith, lookup-remove src path disk, eq_iff src path, apart j path)

  -- addEntryFromPath fills the map from a file that is no other digest's, unless the rename fails.
  pub add_entry_from_path-Refines :
      (src : String) (payload : Bytes)
      → IsGoodPool dig p disk
      → (has d p.spills ≡ false → HasOwnFile)
      → ((j path : String) → lookup j p.spills ≡ some path → path ≢ src)
      → lookup src disk ≡ some payload
      → Refines payload
          (os.rename_error (join p.dir (dig.encoded d)) ≢ none)
          (add_entry_from_path os dig p d src e disk)
  unfolding add_entry_from_path
  add_entry_from_path-Refines src payload good own apart there =
      elim (Bool-cases (has d p.spills)) [
        | inl h ↦
            let (same, kept) = kept_files dig p disk (remove src disk) good (removed src apart) in
            rw (add_entry_from_path, h) (same, inl (refl, λ j. kept j ∙ held good h payload j))
        | inr h ↦
            let dst = join p.dir (dig.encoded d) in
            elim (Option-cases (os.rename_error dst)) [
              | inl w ↦
                  let disk' = insert dst payload (remove src disk) in
                  let adds =
                    register-Adds dig p d payload e disk disk' good h
                      (moved src payload (own h) apart)
                      (ground
                        (arith, lookup-insert dst dst payload (remove src disk), eq_refl dst)) in
                  rw (add_entry_from_path, h, w, there)
                    (adds.good, inl (refl, fresh payload (register p d dst e) disk' h adds))
              | inr (x, w) ↦
                  rw (add_entry_from_path, h, w)
                    (good, inr ((λ q. ground arith), (λ q. ground arith), refl, refl))
            ]
      ]

  gone :
      (src : String) (payload : Bytes)
      → lookup src disk ≡ some payload
      → src ≢ join p.dir (dig.encoded d)
      → let x = add_entry_from_path os dig p d src e disk in x.0 ≡ ok tt → lookup src x.2 ≡ none
  unfolding add_entry_from_path
  gone src payload there ne h =
      let dst = join p.dir (dig.encoded d) in
      ground (
        arith,
        lookup-remove src src disk,
        eq_refl src,
        eq_iff dst src,
        lookup-insert dst src payload (remove src disk),
      )

  elsewhere :
      (src path : String)
      → path ≢ src
      → path ≢ join p.dir (dig.encoded d)
      → lookup path (add_entry_from_path os dig p d src e disk).2 ≡ lookup path disk
  unfolding add_entry_from_path
  elsewhere src path ne ne' =
      let dst = join p.dir (dig.encoded d) in
      elim (Option-cases (lookup src disk)) [
        | inl q ↦ ground (arith, lookup-remove src path disk, eq_iff src path)
        | inr (b, q) ↦ ground (
          arith,
          lookup-remove src path disk,
          eq_iff src path,
          eq_iff dst path,
          lookup-insert dst path b (remove src disk),
        )
      ]

  -- In a good pool, where the file of a digest that is not registered is no other digest's, and for a
  -- source file that is no digest's: addEntryFromPath fills the map that the pool promises with the
  -- file's content and the entry, unless it had the digest, or it fails, which it does only where the
  -- rename fails and which changes nothing. Where it returns, the source file is gone, also where the
  -- pool had the digest; all files but the two are as they were.
  pub add_entry_from_path-Adopts :
      (src : String) (payload : Bytes)
      → IsGoodPool dig p disk
      → (has d p.spills ≡ false → HasOwnFile)
      → ((j path : String) → lookup j p.spills ≡ some path → path ≢ src)
      → lookup src disk ≡ some payload
      → src ≢ join p.dir (dig.encoded d)
      → let x = add_entry_from_path os dig p d src e disk in
        Refines payload (os.rename_error (join p.dir (dig.encoded d)) ≢ none) x
        × (x.0 ≡ ok tt → lookup src x.2 ≡ none)
        × ((path : String)
            → path ≢ src
            → path ≢ join p.dir (dig.encoded d)
            → lookup path x.2 ≡ lookup path disk)
  add_entry_from_path-Adopts src payload good own apart there ne = (
    add_entry_from_path-Refines src payload good own apart there,
    gone src payload there ne,
    elsewhere src,
  )
