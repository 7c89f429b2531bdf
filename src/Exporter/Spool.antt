-- ===== src/Exporter/Spool.antt =====
-- Writing a blob of an image source to disk: spoolReader and spoolBlob of pkg/exporter/perpair.go. A
-- blob is the sequence of reads that its reader answers with, after which comes io.EOF; a chunk comes
-- with what the file makes of it.
pub mod Atomic
use diffah.Base.{ℕ, ◌+◌, String, Option, none, some, List, [], ◌∷◌, ◌++◌, length}
use diffah.Base.Int.{ℤ, pos}
use diffah.Base.Map.{lookup, insert, remove}
use diffah.Base.Disk.{Bytes, Disk}
use diffah.Diff.Errors.{Error, Result, ok, err, wrap}
use diffah.Exporter.Pool.{Os}

-- A chunk; a chunk with the error that ends the stream after it; a chunk whose write ends with an error
-- after the bytes given have reached the file; or a context that is done before a read.
pub data Read : Type 0 where
  chunk : Bytes → Read
  failed : Bytes → Error → Read
  refused : Bytes → Error → Read
  cancelled : Error → Read

-- The bytes that reach the file, as far as the reads go.
abbrev pub all_bytes : List Read → Bytes
all_bytes [] = []
all_bytes (chunk b ∷ reads) = b ++ all_bytes reads
all_bytes (failed b e ∷ _) = b
all_bytes (refused b e ∷ _) = b
all_bytes (cancelled e ∷ _) = []

-- The error of a read, of a write or of the context that ends the stream.
abbrev pub read_error : List Read → Option Error
read_error [] = none
read_error (chunk b ∷ reads) = read_error reads
read_error (failed b e ∷ _) = some e
read_error (refused b e ∷ _) = some e
read_error (cancelled e ∷ _) = some e

-- A chunk that is written and reported, and not when it is empty.
pub record Copied : Type 0 where
  pub outcome : Option Error
  pub total : ℕ
  pub reports : List ℕ
  pub disk : Disk

appended : String → Bytes → Copied → Copied
appended tmp b c = record {
  outcome = none;
  total = c.total + length b;
  reports = c.reports ++ (length b ∷ []);
  disk = elim (lookup tmp c.disk) [
    | none ↦ insert tmp b c.disk
    | some held ↦ insert tmp (held ++ b) c.disk
  ];
}

append_chunk : String → Bytes → Copied → Copied
unfolding appended
append_chunk tmp [] c = c
append_chunk tmp (x ∷ b) c = appended tmp (x ∷ b) c

-- The loop of spoolReader. A chunk that is not written whole is neither counted nor reported.
pub copy_reads : String → List Read → Copied → Copied
unfolding append_chunk appended
copy_reads tmp [] c = c
copy_reads tmp (cancelled e ∷ reads) c = record c { outcome = some e }
copy_reads tmp (refused b e ∷ reads) c = record c {
  outcome = some (wrap "write target spool" e);
  disk = (appended tmp b c).disk;
}
copy_reads tmp (failed b e ∷ reads) c = record (append_chunk tmp b c) { outcome = some e }
copy_reads tmp (chunk b ∷ reads) c = copy_reads tmp reads (append_chunk tmp b c)

abbrev copy_start : String → Disk → Copied
copy_start tmp disk = record { outcome = none; total = 0; reports = []; disk = insert tmp [] disk }

-- spoolReader, with the temporary file `tmp`: the bytes written, and what was reported.
unfoldable pub spool_reader : Os → String → String → List Read → Disk → Result ℤ × List ℕ × Disk
spool_reader os tmp dst reads disk =
    let c = copy_reads tmp reads (copy_start tmp disk) in
    elim (os.create_error tmp) [
      | some e ↦ (err (wrap "create target spool tmp" e), [], disk)
      | none ↦ elim (c.outcome) [
        | some e ↦ (err e, c.reports, remove tmp c.disk)
        | none ↦ elim (os.sync_error tmp) [
          | some e ↦ (err (wrap "sync target spool" e), c.reports, remove tmp c.disk)
          | none ↦ elim (os.close_error tmp) [
            | some e ↦ (err (wrap "close target spool" e), c.reports, remove tmp c.disk)
            | none ↦ elim (os.rename_error dst) [
              | some e ↦ (err (wrap "rename target spool" e), c.reports, remove tmp c.disk)
              | none ↦ elim (lookup tmp c.disk) [
                | none ↦ (ok (pos c.total), c.reports, c.disk)
                | some b ↦ (ok (pos c.total), c.reports, insert dst b (remove tmp c.disk))
              ]
            ]
          ]
        ]
      ]
    ]

-- spoolBlob
unfoldable pub spool_blob :
    Os → Result (List Read) → String → String → Disk → Result ℤ × List ℕ × Disk
spool_blob os (err e) tmp dst disk = (err e, [], disk)
spool_blob os (ok reads) tmp dst disk = spool_reader os tmp dst reads disk
