-- ===== src/Archive/Reader.antt =====
-- internal/archive/reader.go past safeJoin. A tar stream is the list of its entries and what ends it:
-- the tar and zstd readers are parameters. Directories are not kept on the disk of the model.
pub mod Extracted
pub mod Sidecars
pub mod Blobs
use Prim.Native.String.{◌++◌}
use diffah.Base.{
  ℕ, String, Bool, true, false, ◌&&◌, Option, none, some, List, [], ◌∷◌, take, leb, if◌then◌else◌,
  ◌==◌, cut_colon,
}
use diffah.Base.Map.{Map, lookup, insert, has}
use diffah.Base.Disk.{Bytes, Disk}
use diffah.Diff.Errors.{
  Error, Result, ok, err, ◌>>=◌, wrap_err, wrap, message, not_a_diffah_archive,
}
use diffah.Archive.Clean.{clean_parts, safe_join}

-- A tar header and what reading the entry gives; `read_error` is the error that ends the body in place
-- of io.EOF.
pub record Entry : Type 0 where
  pub name : String
  pub is_dir : Bool
  pub body : Bytes
  pub read_error : Option Error

-- The entries that tar.Reader.Next gives, and the error that it gives after them in place of io.EOF.
pub record Tar : Type 0 where
  pub entries : List Entry
  pub ending : Option Error

-- os.Open with the whole file, and tar.NewReader of what zstd.NewReader makes of a file and of the file
-- itself.
pub record Readers : Type 0 where
  pub open_file : String → Result Bytes
  pub zstd_tar : Bytes → Result Tar
  pub plain_tar : Bytes → Tar

-- The operating system: what os.MkdirAll of a path and of its parent, and os.Create end with, and how
-- much of a body is written and with what error.
pub record Writers : Type 0 where
  pub mkdir_error : String → Option Error
  pub mkdir_parent_error : String → Option Error
  pub create_error : String → Option Error
  pub written : String → Bytes → Bytes × Option Error

abbrev pub sidecar_filename : String
sidecar_filename = "diffah.json"

same_bytes : Bytes → Bytes → Bool
same_bytes [] [] = true
same_bytes (x ∷ xs) (y ∷ ys) = leb x y && leb y x && same_bytes xs ys
same_bytes _ _ = false

zstd_magic : Bytes
zstd_magic = 0x28 ∷ 0xb5 ∷ 0x2f ∷ 0xfd ∷ []

-- openDecompressed; a file that is open can be read.
open_decompressed : Readers → Bytes → Result Tar
unfolding same_bytes zstd_magic
open_decompressed r raw =
    if same_bytes (take 4 raw) zstd_magic
    then wrap_err "init zstd reader" (r.zstd_tar raw)
    else ok (r.plain_tar raw)

unfoldable pub open_archive : Readers → String → Result Tar
unfolding open_decompressed
open_archive r path = wrap_err "open" (r.open_file path) >>= λ raw. open_decompressed r raw

-- io.ReadAll
unfoldable pub read_all : Entry → Result Bytes
read_all x = elim (x.read_error) [ none ↦ ok (x.body) | some e ↦ err e ]

at_end : String → Option Error → Option Bytes → Result Bytes
at_end path (some e) sidecar = err (wrap "read tar" e)
at_end path none none = err (not_a_diffah_archive path)
at_end path none (some raw) = ok raw

-- The loop of ReadSidecar.
read_sidecar_from : String → List Entry → Option Error → Result Bytes
unfolding at_end
read_sidecar_from path [] ending = at_end path ending none
read_sidecar_from path (x ∷ entries) ending =
    let rest = read_sidecar_from path entries ending in
    if x.name == sidecar_filename then read_all x else rest

-- ReadSidecar
unfoldable pub read_sidecar : Readers → String → Result Bytes
unfolding read_sidecar_from
read_sidecar r path = open_archive r path >>= λ t. read_sidecar_from path t.entries t.ending

-- filepath.Join("blobs", …)
join_parts : List String → String
join_parts [] = "."
join_parts (p ∷ []) = p
join_parts (p ∷ q ∷ parts) = p ++ ("/" ++ join_parts (q ∷ parts))

-- blobTarPath
unfoldable pub blob_tar_path : String → String
unfolding join_parts
blob_tar_path d = elim (cut_colon d) [
  | none ↦ join_parts (clean_parts ("blobs/" ++ d))
  | some (algorithm, encoded) ↦
      join_parts (clean_parts ("blobs/" ++ (algorithm ++ ("/" ++ encoded))))
]

wanted : List String → Map String → Map String
wanted [] want = want
wanted (d ∷ digests) want = wanted digests (insert (blob_tar_path d) d want)

all_found : List String → Map Bytes → Result (Unit {0})
all_found [] got = ok tt
all_found (d ∷ digests) got =
    let rest = all_found digests got in
    if has d got then rest else err (message "blob not found in archive")

-- The loop of ReadSidecarAndManifestBlobs.
read_blobs_from :
    String
    → Map String
    → List Entry
    → Option Error
    → Option Bytes
    → Map Bytes
    → Result (Bytes × Map Bytes)
unfolding at_end
read_blobs_from path want [] ending sidecar got =
    at_end path ending sidecar >>= λ raw. ok (raw, got)
read_blobs_from path want (x ∷ entries) ending sidecar got =
    if x.name == sidecar_filename
    then (wrap_err "read sidecar" (read_all x) >>= λ raw.
        read_blobs_from path want entries ending (some raw) got)
    else elim (lookup x.name want) [
      | none ↦ read_blobs_from path want entries ending sidecar got
      | some d ↦ wrap_err "read blob" (read_all x) >>= λ body.
          read_blobs_from path want entries ending sidecar (insert d body got)
    ]

-- ReadSidecarAndManifestBlobs
unfoldable pub read_sidecar_and_manifest_blobs :
    Readers → String → List String → Result (Bytes × Map Bytes)
unfolding wanted all_found read_blobs_from
read_sidecar_and_manifest_blobs r path digests = open_archive r path >>= λ t.
    read_blobs_from path (wanted digests []) t.entries t.ending none [] >>= λ p.
    all_found digests p.1 >>= λ _. ok p

go_on : Result (Unit {0}) × Disk → (Disk → Result Bytes × Disk) → Result Bytes × Disk
go_on (err e, disk) k = (err e, disk)
go_on (ok _, disk) k = k disk

module _ (fs : Writers) (dest : String) where
  copy_n : Option Error → Option Error → Result (Unit {0})
  copy_n (some e) read_error = err (wrap "write" e)
  copy_n none (some e) = err (wrap "write" e)
  copy_n none none = ok tt

  -- writeFile
  write_file : String → Entry → Disk → Result (Unit {0}) × Disk
  unfolding copy_n
  write_file path x disk = elim (fs.create_error path) [
    | some e ↦ (err (wrap "create" e), disk)
    | none ↦
        let (content, write_error) = fs.written path x.body in
        (copy_n write_error x.read_error, insert path content disk)
  ]

  made : String → Option Error → Result (Unit {0})
  made text none = ok tt
  made text (some e) = err (wrap text e)

  write_entry : Entry → String → Disk → Result (Unit {0}) × Disk
  unfolding write_file made
  write_entry x target disk =
      if x.is_dir
      then (made "mkdir" (fs.mkdir_error target), disk)
      else elim (fs.mkdir_parent_error target) [
        | some e ↦ (err (wrap "mkdir parent" e), disk)
        | none ↦ write_file target x disk
      ]

  -- extractEntry
  extract_entry : Entry → Disk → Result (Unit {0}) × Disk
  unfolding write_entry
  extract_entry x disk = elim (safe_join dest x.name) [
    | err e ↦ (err e, disk)
    | ok target ↦ write_entry x target disk
  ]

  -- The loop of Extract.
  extract_from : String → List Entry → Option Error → Option Bytes → Disk → Result Bytes × Disk
  unfolding at_end extract_entry go_on
  extract_from path [] ending sidecar disk = (at_end path ending sidecar, disk)
  extract_from path (x ∷ entries) ending sidecar disk =
      if x.name == sidecar_filename
      then elim (read_all x) [
        | err e ↦ (err (wrap "read sidecar" e), disk)
        | ok raw ↦ extract_from path entries ending (some raw) disk
      ]
      else go_on (extract_entry x disk) (λ d. extract_from path entries ending sidecar d)

  -- Extract
  unfoldable pub extract : Readers → String → Disk → Result Bytes × Disk
  unfolding extract_from
  extract r path disk = elim (open_archive r path) [
    | err e ↦ (err e, disk)
    | ok t ↦ extract_from path t.entries t.ending none disk
  ]
