-- ===== src/Exporter/Pool/View.antt =====
-- What the pool promises: a map from digests to payloads with their entries that the first call for
-- a digest fills. The paths, the two maps and the files carry it out.
use diffah.Base.{
  String, true, false, Option, none, some, ◌≡◌, inl, inr, arith, Option-cases, eq_iff, ◌==◌,
  if◌then◌else◌,
}
use diffah.Base.Map.{lookup, has, lookup-insert}
use diffah.Base.Disk.{Bytes, Disk, join}
use diffah.Diff.Types.{BlobEntry}
use diffah.Exporter.Types.{Digester}
use diffah.Exporter.Pool.{BlobPool, register}

-- The payload and the entry of a digest.
abbrev pub view : BlobPool → Disk → String → Option (Bytes × BlobEntry)
view p disk d = elim (lookup d p.spills) [
  | none ↦ none
  | some path ↦ elim (lookup path disk) [
    | none ↦ none
    | some payload ↦ elim (lookup d p.entries) [ none ↦ none | some e ↦ some (payload, e) ]
  ]
]

module _ (dig : Digester) where
  -- Each digest that is registered has its own file, which is there, and an entry.
  pub record IsGoodPool (p : BlobPool) (disk : Disk) : Type 0 where
    pub at_path :
        (d path : String) → lookup d p.spills ≡ some path → path ≡ join p.dir (dig.encoded d)
    pub on_disk : (d path : String) → lookup d p.spills ≡ some path → has path disk ≡ true
    pub same_keys : (d : String) → has d p.spills ≡ has d p.entries

  -- The digest `d` is added with a payload and an entry, and the rest stays.
  pub record Adds (p : BlobPool) (disk : Disk) (d : String) (payload : Bytes) (e : BlobEntry)
      (p' : BlobPool) (disk' : Disk) : Type 0 where
    pub good : IsGoodPool p' disk'
    pub added :
        (j : String) → view p' disk' j ≡ (if d == j then some (payload, e) else view p disk j)

  -- Registering a digest whose payload was just put at its path.
  module _ (p : BlobPool) (d : String) (payload : Bytes) (e : BlobEntry) (disk disk' : Disk)
      (good : IsGoodPool p disk) (new : has d p.spills ≡ false)
      (kept : (j path : String)
        → lookup j p.spills ≡ some path
        → lookup path disk' ≡ lookup path disk)
      (there : lookup (join p.dir (dig.encoded d)) disk' ≡ some payload) where
    register-IsGoodPool : IsGoodPool (register p d (join p.dir (dig.encoded d)) e) disk'
    unfolding register
    register-IsGoodPool = record {
      at_path = λ j path h. ground (
        arith,
        lookup-insert d j (join p.dir (dig.encoded d)) p.spills,
        eq_iff d j,
        good.at_path j path,
      );
      on_disk = λ j path h. ground (
        arith,
        lookup-insert d j (join p.dir (dig.encoded d)) p.spills,
        kept j path,
        good.on_disk j path,
      );
      same_keys = λ j. ground (
        arith,
        lookup-insert d j (join p.dir (dig.encoded d)) p.spills,
        lookup-insert d j e p.entries,
        good.same_keys j,
      );
    }

    view-register :
        (j : String)
        → view (register p d (join p.dir (dig.encoded d)) e) disk' j
          ≡ (if d == j then some (payload, e) else view p disk j)
    unfolding register
    view-register j = elim (Option-cases (lookup j p.spills)) [
      | inl n ↦ ground (
        arith,
        lookup-insert d j (join p.dir (dig.encoded d)) p.spills,
        lookup-insert d j e p.entries,
      )
      | inr (path, n) ↦ ground (
        arith,
        lookup-insert d j (join p.dir (dig.encoded d)) p.spills,
        lookup-insert d j e p.entries,
        kept j path,
      )
    ]

    pub register-Adds : Adds p disk d payload e (register p d (join p.dir (dig.encoded d)) e) disk'
    register-Adds = record { good = register-IsGoodPool; added = view-register }

  -- Files that are no digest's do not matter.
  pub kept_files :
      (p : BlobPool) (disk disk' : Disk)
      → IsGoodPool p disk
      → ((j path : String) → lookup j p.spills ≡ some path → lookup path disk' ≡ lookup path disk)
      → IsGoodPool p disk' × ((j : String) → view p disk' j ≡ view p disk j)
  kept_files p disk disk' good kept = (
    record {
      at_path = good.at_path;
      on_disk = λ j path h. ground (arith, kept j path h, good.on_disk j path h);
      same_keys = good.same_keys;
    },
    λ j. elim (Option-cases (lookup j p.spills)) [
      | inl n ↦ ground arith
      | inr (path, n) ↦ ground (arith, kept j path n)
    ],
  )
