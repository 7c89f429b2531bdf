-- ===== src/Exporter/Encode/Adopt.antt =====
-- Adopting a file into the pool, when nothing has happened to the pool's own files.
use diffah.Base.{
  String, true, Bool-cases, ◌==◌, ◌⊎◌, false, Option, none, some, ◌≡◌, ◌≢◌, refl, sym, ap, ◌∙◌, inl,
  inr, arith, eq_iff,
}
use diffah.Base.Map.{lookup, has, remove, lookup-remove}
use diffah.Base.Disk.{Bytes, Disk, join}
use diffah.Diff.Types.{BlobEntry}
use diffah.Diff.Errors.{ok}
use diffah.Exporter.Types.{Digester}
use diffah.Exporter.Pool.{BlobPool, Os, Outcome, register, add_entry_from_path}
use diffah.Exporter.Pool.View.{view, IsGoodPool, kept_files}
use diffah.Exporter.Pool.Refinement.{
  put_absent, registered, unregistered, add_entry_from_path-Refines,
}

put_absent-cong :
    (d : String) (v : Bytes × BlobEntry) (m m' : String → Option (Bytes × BlobEntry)) (j : String)
    → ((i : String) → m i ≡ m' i)
    → put_absent d v m j ≡ put_absent d v m' j
put_absent-cong d v m m' j h = rw (h d, h j) refl

-- The files of the pool are the same on both disks.
abbrev pub Keeps : BlobPool → Disk → Disk → Type 0
Keeps p disk disk' =
    (j path : String) → lookup j p.spills ≡ some path → lookup path disk' ≡ lookup path disk

-- The call has returned, and the pool is the one before with `d` filled.
abbrev pub Fills : Digester → BlobPool → Disk → String → Bytes × BlobEntry → Outcome → Type 0
Fills dig p disk d v (r, p', disk') =
    (r ≡ ok tt)
    × (p'.dir ≡ p.dir)
    × IsGoodPool dig p' disk'
    × ((j : String) → view p' disk' j ≡ put_absent d v (view p disk) j)

add_entry_from_path_dir :
    (os : Os) (dig : Digester) (p : BlobPool) (d src : String) (e : BlobEntry) (disk : Disk)
    → (add_entry_from_path os dig p d src e disk).1.dir ≡ p.dir
unfolding add_entry_from_path register
add_entry_from_path_dir os dig p d src e disk = ground arith

pub adopt-Fills :
    (os : Os) (dig : Digester) (p : BlobPool) (d : String) (e : BlobEntry) (disk disk' : Disk)
    (src : String) (payload : Bytes)
    → IsGoodPool dig p disk
    → Keeps p disk disk'
    → (has d p.spills ≡ false
        → (j path : String) → lookup j p.spills ≡ some path
        → path ≢ join p.dir (dig.encoded d))
    → ((j path : String) → lookup j p.spills ≡ some path → path ≢ src)
    → lookup src disk' ≡ some payload
    → os.rename_error (join p.dir (dig.encoded d)) ≡ none
    → Fills dig p disk d (payload, e) (add_entry_from_path os dig p d src e disk')
adopt-Fills os dig p d e disk disk' src payload good keeps own apart there lets =
    let (good', same) = kept_files dig p disk disk' good keeps in
    let (good'', outcome) =
      add_entry_from_path-Refines os dig p d e disk' src payload good' own apart there in
    elim outcome [
      | inl (returns, fills) ↦ (
        returns,
        add_entry_from_path_dir os dig p d src e disk',
        good'',
        λ j. fills j ∙ put_absent-cong d (payload, e) (view p disk') (view p disk) j same,
      )
      | inr (fails, fault, _, _) ↦ absurd (fault lets)
    ]

-- The digests that the pool has, and the one that is adopted.
abbrev pub IsHeld : BlobPool → String → String → Type 0
IsHeld p d j = (has j p.spills ≡ true) ⊎ (j ≡ d)

IsHeld-after :
    (dig : Digester) (p : BlobPool) (disk : Disk) (d : String) (v : Bytes × BlobEntry)
    (p' : BlobPool) (disk' : Disk) (j path : String)
    → IsGoodPool dig p' disk'
    → view p' disk' j ≡ put_absent d v (view p disk) j
    → lookup j p'.spills ≡ some path
    → IsHeld p d j
IsHeld-after dig p disk d v p' disk' j path good fills h = elim (Bool-cases (d == j)) [
  | inl q ↦ inr (sym ((eq_iff d j).0 q))
  | inr q ↦ elim (Bool-cases (has j p.spills)) [
    | inl k ↦ inl k
    | inr k ↦
        let (w, there) = registered dig p' j disk' good (ground arith) in
        absurd (clash w there (fills ∙ not_put q ∙ unregistered dig p j disk k))
  ]
]
  where
    clash : (w : Bytes × BlobEntry) → view p' disk' j ≡ some w → view p' disk' j ≡ none → ⊥
    clash w a b = cc

    not_put : (d == j) ≡ false → put_absent d v (view p disk) j ≡ view p disk j
    not_put q = rw q refl

-- Removing a file that is none of the pool's afterwards changes nothing.
pub Fills-remove :
    (dig : Digester) (p : BlobPool) (disk : Disk) (d : String) (v : Bytes × BlobEntry)
    (p' : BlobPool) (disk' : Disk) (x : String)
    → ((j : String) → IsHeld p d j → join p.dir (dig.encoded j) ≢ x)
    → Fills dig p disk d v (ok tt, p', disk')
    → Fills dig p disk d v (ok tt, p', remove x disk')
Fills-remove dig p disk d v p' disk' x apart (returns, dir, good, fills) =
    let (good', same) = kept_files dig p' disk' (remove x disk') good away in
    (returns, dir, good', λ j. same j ∙ fills j)
  where
    at : (j path : String) → lookup j p'.spills ≡ some path → path ≢ x
    at j path h q =
        apart j (IsHeld-after dig p disk d v p' disk' j path good (fills j) h)
          (ap (λ r. join r (dig.encoded j)) (sym dir) ∙ sym (good.at_path j path h) ∙ q)

    away :
        (j path : String)
        → lookup j p'.spills ≡ some path
        → lookup path (remove x disk') ≡ lookup path disk'
    away j path h = ground (arith, lookup-remove x path disk', eq_iff x path, at j path h)
