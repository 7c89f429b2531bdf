-- ===== src/Exporter/Planner.antt =====
-- The Planner of pkg/exporter/intralayer.go: ranking the baseline layers, and choosing between the
-- patches and the full layer.
pub mod Ranking
pub mod Trial
pub mod Step
pub mod Round
pub mod Winner
pub mod Choice
pub mod Duplicate
use Prim.Native.String.{◌++◌}
use Prim.Native.Nat.{min}
use diffah.Base.{
  ℕ, zero, suc, String, Bool, true, false, not, ◌&&◌, Option, none, some, List, [], ◌∷◌, ltb,
  length, take, text_ltb, if◌then◌else◌, ◌==◌,
}
use diffah.Base.Int.{ℤ, pos, pos_part, ◌-ℤ◌, ltb_ℤ, leb_ℤ, eqb_ℤ}
use diffah.Base.Map.{Map, lookup, has, insert, remove}
use diffah.Base.Sort.{sort}
use diffah.Base.Disk.{Disk, join}
use diffah.Diff.Types.{BlobRef, full, patch}
use diffah.Diff.Errors.{Result, ok, err, wrap, wrap_err, message, ◌>>=◌}
use diffah.Exporter.Types.{BaselineLayerMeta, Digester}
use diffah.Exporter.Window.{resolve_window_log}
use diffah.Exporter.Codec.{EncodeOpts, Zstd, encode_stream, encode_full_stream}
use diffah.Exporter.Fingerprint.{Fingerprint, score}

abbrev pub codec_zstd_patch : String
codec_zstd_patch = "zstd-patch"

-- `baseline` is sorted; `fingerprints` is the map that ensureBaselineFP has filled.
pub record Planner : Type 0 where
  pub baseline : List BaselineLayerMeta
  pub read_blob_path : String → Result String
  pub fingerprints : Map Fingerprint
  pub level : ℤ
  pub window_log : ℤ

abbrev pub by_digest : BaselineLayerMeta → BaselineLayerMeta → Bool
by_digest a b = text_ltb a.digest b.digest

-- NewPlanner; no layer has a fingerprint yet.
unfoldable pub new_planner : List BaselineLayerMeta → (String → Result String) → ℤ → ℤ → Planner
new_planner baseline read_blob_path level window_log = record {
  baseline = sort by_digest baseline;
  read_blob_path = read_blob_path;
  fingerprints = [];
  level = level;
  window_log = window_log;
}

-- The loop of SeedBaselineFingerprints.
seed_from : Map Fingerprint → List BaselineLayerMeta → Map Fingerprint → Map Fingerprint
seed_from fps [] seeded = seeded
seed_from fps (b ∷ baseline) seeded =
    seed_from fps baseline
      (elim (lookup b.digest fps) [ none ↦ seeded | some f ↦ insert b.digest f seeded ])

unfoldable pub seed_baseline_fingerprints : Map Fingerprint → Planner → Planner
unfolding seed_from
seed_baseline_fingerprints fps p = record p {
  fingerprints = seed_from fps p.baseline p.fingerprints;
}

-- ensureBaselineFP: `fingerprint_of` opens the file at a path and fingerprints it, and `none` is a
-- failure of either. What has an entry keeps it.
ensure_from :
    (String → Result String)
    → (String → Fingerprint)
    → List BaselineLayerMeta
    → Map Fingerprint
    → Map Fingerprint
ensure_from read fingerprint_of [] fps = fps
ensure_from read fingerprint_of (b ∷ baseline) fps = ensure_from read fingerprint_of baseline (
    if has b.digest fps then fps else elim (read b.digest) [
      | ok path ↦ insert b.digest (fingerprint_of path) fps
      | err e ↦ insert b.digest none fps
    ])

unfoldable pub ensure_baseline_fp : (String → Fingerprint) → Planner → Planner
unfolding ensure_from
ensure_baseline_fp fingerprint_of p = record p {
  fingerprints = ensure_from p.read_blob_path fingerprint_of p.baseline p.fingerprints;
}

abbrev pub fingerprint_at : Map Fingerprint → String → Fingerprint
fingerprint_at fps d = elim (lookup d fps) [ none ↦ none | some f ↦ f ]

unfoldable pub abs_delta : ℤ → ℤ → ℤ
abs_delta a b = if ltb_ℤ b a then a -ℤ b else b -ℤ a

abbrev pub rank_score : Map Fingerprint → Fingerprint → BaselineLayerMeta → ℤ
rank_score fps target_fp b = score target_fp (fingerprint_at fps b.digest)

-- The comparison of PickTopK: score descending, then the closest size, then the digest. (The source
-- computes the scores once, before it sorts.)
unfoldable pub better :
    Map Fingerprint → Fingerprint → ℤ → BaselineLayerMeta → BaselineLayerMeta → Bool
better fps target_fp target_size a b =
    let sa = rank_score fps target_fp a in
    let sb = rank_score fps target_fp b in
    let da = abs_delta a.size target_size in
    let db = abs_delta b.size target_size in
    if not (eqb_ℤ sa sb)
    then ltb_ℤ sb sa
    else if not (eqb_ℤ da db)
    then ltb_ℤ da db
    else text_ltb a.digest b.digest

-- PickTopK, after ensureBaselineFP.
unfoldable pub pick_top_k : Planner → Fingerprint → ℤ → ℤ → List BaselineLayerMeta
pick_top_k p target_fp target_size k =
    if leb_ℤ k (pos 0)
    then []
    else let cands = sort (better p.fingerprints target_fp target_size) p.baseline in
      take (min (pos_part k) (length cands)) cands

unfoldable pub full_entry : BlobRef → BlobRef
full_entry l = record {
  digest = l.digest;
  size = l.size;
  media_type = l.media_type;
  encoding = full;
  codec = "";
  patch_from_digest = "";
  archive_size = l.size;
}

unfoldable pub patch_entry : BlobRef → BaselineLayerMeta → ℤ → BlobRef
patch_entry s c patch_size = record {
  digest = s.digest;
  size = s.size;
  media_type = s.media_type;
  encoding = patch;
  codec = codec_zstd_patch;
  patch_from_digest = c.digest;
  archive_size = patch_size;
}

-- s[:n], in characters, where the source's slice of a hex text counts the same bytes.
take_text : ℕ → String → String
take_text zero s = String.[]
take_text (suc n) String.[] = String.[]
take_text (suc n) (String.◌∷◌ c s) = String.◌∷◌ c (take_text n s)

unfoldable pub cand_path : Digester → String → BlobRef → BaselineLayerMeta → String
unfolding take_text
cand_path dig blobs_dir s c =
    join blobs_dir (dig.encoded s.digest ++ (".cand-" ++ take_text 8 (dig.encoded c.digest)))

-- bestEntry, bestPath and bestSize.
pub record Best : Type 0 where
  pub entry : BlobRef
  pub path : String
  pub size : ℤ

-- What the loop of PlanShippedTopK reads and does not change.
pub record Task : Type 0 where
  pub zstd : Zstd
  pub opts : EncodeOpts
  pub shipped : BlobRef
  pub target_path : String
  pub full_size : ℤ
  pub read_blob_path : String → Result String
  pub path_of : BaselineLayerMeta → String

unfoldable pub start : Task → Best
start t = record { entry = full_entry t.shipped; path = t.target_path; size = t.shipped.size }

unfoldable pub improves : Task → ℤ → Best → Bool
improves t patch_size best =
    ltb_ℤ patch_size t.full_size && (ltb_ℤ patch_size t.shipped.size && ltb_ℤ patch_size best.size)

-- The end of one round, with the new patch at the candidate's path.
unfoldable pub settle : Task → BaselineLayerMeta → ℤ → Best → Disk → Best × Disk
settle t c patch_size best disk =
    if improves t patch_size best
    then (
      record { entry = patch_entry t.shipped c patch_size; path = t.path_of c; size = patch_size },
      (if best.path == t.target_path then disk else remove best.path disk),
    )
    else (best, remove (t.path_of c) disk)

-- One round of the loop over the candidates.
unfoldable pub try_candidate : Task → BaselineLayerMeta → Best → Disk → Result Best × Disk
try_candidate t c best disk = elim (t.read_blob_path c.digest) [
  | err e ↦ (err (wrap "baseline path" e), disk)
  | ok ref_path ↦
      let (r, disk') = encode_stream t.zstd t.opts ref_path t.target_path (t.path_of c) disk in
      elim r [
        | err e ↦ (err (wrap "encode patch" e), remove (t.path_of c) disk')
        | ok n ↦ let (best', disk'') = settle t c n best disk' in (ok best', disk'')
      ]
]

pub try_candidates : Task → List BaselineLayerMeta → Best → Disk → Result Best × Disk
try_candidates t [] best disk = (ok best, disk)
try_candidates t (c ∷ cands) best disk =
    let (r, disk') = try_candidate t c best disk in
    elim r [ err e ↦ (err e, disk') | ok best' ↦ try_candidates t cands best' disk' ]

abbrev pub encode_opts : Planner → BlobRef → EncodeOpts
encode_opts p s = record { level = p.level; window_log = resolve_window_log p.window_log s.size }

abbrev pub task : Planner → Zstd → Digester → BlobRef → String → String → ℤ → Task
task p zstd dig s target_path blobs_dir full_size = record {
  zstd = zstd;
  opts = encode_opts p s;
  shipped = s;
  target_path = target_path;
  full_size = full_size;
  read_blob_path = p.read_blob_path;
  path_of = cand_path dig blobs_dir s;
}

-- PlanShippedTopK past the ranking: the candidates `cands` against the whole layer.
unfoldable pub plan_candidates :
    Planner
    → Zstd
    → Digester
    → BlobRef
    → String
    → String
    → List BaselineLayerMeta
    → Disk
    → Result (BlobRef × String) × Disk
plan_candidates p zstd dig s target_path blobs_dir [] disk = (ok (full_entry s, target_path), disk)
plan_candidates p zstd dig s target_path blobs_dir (c ∷ cands) disk =
    elim (encode_full_stream zstd (task p zstd dig s target_path blobs_dir (pos 0)).opts target_path
      disk) [
        | err e ↦ (err (wrap "size-only full encode" e), disk)
        | ok full_size ↦
            let t = task p zstd dig s target_path blobs_dir full_size in
            let (r, disk') = try_candidates t (c ∷ cands) (start t) disk in
            elim r [ err e ↦ (err e, disk') | ok best ↦ (ok (best.entry, best.path), disk') ]
      ]

-- PlanShippedTopK, where `fingerprint_of` fingerprints the file at a path.
unfoldable pub plan_shipped_top_k :
    Planner
    → Zstd
    → Digester
    → (String → Fingerprint)
    → BlobRef
    → String
    → String
    → ℤ
    → Disk
    → Result (BlobRef × String) × Disk
plan_shipped_top_k p zstd dig fingerprint_of s target_path blobs_dir k disk =
    let p' = ensure_baseline_fp fingerprint_of p in
    if not (has target_path disk)
    then (err (message "open target spool"), disk)
    else plan_candidates p' zstd dig s target_path blobs_dir
        (pick_top_k p' (fingerprint_of target_path) s.size k) disk
