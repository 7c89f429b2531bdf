-- ===== src/Examples/Pools.antt =====
-- The pool, the spool, the codec and two candidates with one file.
use diffah.Base.{
  String, false, Option, none, List, [], ◌∷◌, ◌≡◌, ◌≢◌, ◌⊎◌, refl, arith, eq_iff, ◌==◌,
}
use diffah.Base.Int.{pos}
use diffah.Base.Map.{lookup, insert}
use diffah.Base.Disk.{Disk}
use diffah.Diff.Types.{BlobEntry, full}
use diffah.Diff.Errors.{ok}
use diffah.Exporter.Codec.{patch_bytes, encode_stream, decode_stream}
use diffah.Exporter.Codec.RoundTrip.{decode_stream-encode_stream}
use diffah.Exporter.Planner.{Task, task, start, try_candidates, cand_path, improves}
use diffah.Exporter.Planner.Trial.{IsPatch, patch_best}
use diffah.Exporter.Planner.Duplicate.{try_candidates-same_path}
use diffah.Exporter.Pool.{add_entry_if_absent, add_entry_from_path}
use diffah.Exporter.Pool.View.{IsGoodPool}
use diffah.Exporter.Pool.Refinement.{
  Refines, Writes, add_entry_if_absent-Writes, add_entry_from_path-Adopts,
}
use diffah.Exporter.Spool.{Read, chunk, spool_reader}
use diffah.Exporter.Spool.Atomic.{Others, Stored, Refused, spool_reader-cases}
use diffah.Examples.Fixtures.{
  calm_os, two_digests, empty_pool, disk, layer_a, baseline_b, planner_b, tiny_zstd,
  tiny_zstd-IsZstd, opts,
}

abbrev entry : BlobEntry
entry = record {
  size = pos 1;
  media_type = "layer";
  encoding = full;
  codec = "";
  patch_from_digest = "";
  archive_size = pos 1;
}

apart : (x y : String) → (x == y) ≡ false → x ≢ y
apart x y h q = ground (arith, h, eq_iff x y)

empty-IsGoodPool : (d : Disk) → IsGoodPool two_digests empty_pool d
empty-IsGoodPool d = record {
  at_path = λ d path h. ground arith;
  on_disk = λ d path h. ground arith;
  same_keys = λ d. refl;
}

add_entry_if_absent_example :
    Writes calm_os two_digests empty_pool "aa" entry disk
      (5 ∷ [])
      (add_entry_if_absent calm_os two_digests empty_pool "aa" (5 ∷ []) entry disk)
add_entry_if_absent_example =
    add_entry_if_absent-Writes calm_os two_digests empty_pool "aa" entry disk (5 ∷ [])
      (empty-IsGoodPool disk) (λ _ j path h. ground arith)

add_entry_from_path_example :
    let x = add_entry_from_path calm_os two_digests empty_pool "aa" "l/bb" entry disk in
    Refines calm_os two_digests empty_pool "aa" entry disk
      (1 ∷ 2 ∷ [])
      (◌≢◌ {A = Option _} (calm_os.rename_error "b/aa") none)
      x
    × (x.0 ≡ ok tt → lookup "l/bb" x.2 ≡ none)
    × ((path : String) → path ≢ "l/bb" → path ≢ "b/aa" → lookup path x.2 ≡ lookup path disk)
add_entry_from_path_example =
    add_entry_from_path-Adopts calm_os two_digests empty_pool "aa" entry disk "l/bb" (1 ∷ 2 ∷ [])
      (empty-IsGoodPool disk) (λ _ j path h. ground arith) (λ j path h. ground arith) refl
      (apart "l/bb" "b/aa" refl)

abbrev reads : List Read
reads = chunk (5 ∷ 6 ∷ []) ∷ chunk (7 ∷ []) ∷ []

spool_reader_example :
    let r = spool_reader calm_os "t/aa.tmp" "t/aa" reads disk in
    Others calm_os "t/aa.tmp" "t/aa" disk r
    × (Stored calm_os "t/aa.tmp" "t/aa" disk reads r
        ⊎ Refused calm_os "t/aa.tmp" "t/aa" disk reads r)
spool_reader_example =
    spool_reader-cases calm_os "t/aa.tmp" "t/aa" disk reads (apart "t/aa.tmp" "t/aa" refl)

abbrev with_target : Disk
with_target = ("t/aa", 5 ∷ []) ∷ disk

decode_stream_example :
    let (r, disk') = encode_stream tiny_zstd opts "l/bb" "t/aa" "b/p" with_target in
    (r ≡ ok (pos 2))
    × (decode_stream tiny_zstd "l/bb" "b/p" "o" disk' ≡ (ok (pos 1), insert "o" (5 ∷ []) disk'))
unfolding patch_bytes
decode_stream_example =
    decode_stream-encode_stream tiny_zstd opts "l/bb" "t/aa" "b/p" "o" with_target (5 ∷ [])
      (7 ∷ 5 ∷ []) tiny_zstd-IsZstd (apart "b/p" "l/bb" refl) refl refl

abbrev the_task : Task
the_task = task planner_b tiny_zstd two_digests layer_a "t/aa" "b" (pos 50)

twice : IsPatch the_task with_target (5 ∷ []) baseline_b (7 ∷ 5 ∷ [])
unfolding patch_bytes
twice = record { ref_path = "l/bb"; read = refl; encoded = refl }

try_candidates_example :
    (d : Disk) × (try_candidates the_task
        (baseline_b ∷ baseline_b ∷ [])
        (start the_task)
        with_target
      ≡ (ok (patch_best the_task with_target (5 ∷ []) baseline_b (7 ∷ 5 ∷ [])), d))
    × (lookup (the_task.path_of baseline_b) d ≡ none)
unfolding cand_path improves start twice
try_candidates_example =
    try_candidates-same_path the_task with_target (5 ∷ []) baseline_b baseline_b (7 ∷ 5 ∷ [])
      (7 ∷ 5 ∷ []) twice twice refl refl (apart "b/aa.cand-bb" "t/aa" refl)
      (apart "b/aa.cand-bb" "l/bb" refl) refl refl
