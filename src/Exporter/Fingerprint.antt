-- ===== src/Exporter/Fingerprint.antt =====
-- pkg/exporter/fingerprint.go: the content of a layer as a map from file digests to sizes, and the
-- overlap of two layers. Opening a decompressor and reading tar are the libraries': a layer is here
-- the list of what `tar.Reader.Next` and `io.Copy` return.
use diffah.Base.{String, Bool, Option, none, some, List, [], ◌∷◌, if◌then◌else◌}
use diffah.Base.Int.{ℤ, pos, ◌+ℤ◌}
use diffah.Base.Map.{Map, has, insert}
use diffah.Diff.Errors.{Error, Result, ok, err, ◌>>=◌, wrap}

-- `none` is the nil map: fingerprinting failed.
abbrev pub Fingerprint : Type 0
Fingerprint = Option (Map ℤ)

add_shared : Map ℤ → Map ℤ → ℤ
add_shared [] candidate = pos 0
add_shared ((d, size) ∷ target) candidate =
    let total = add_shared target candidate in if has d candidate then size +ℤ total else total

unfoldable pub score : Fingerprint → Fingerprint → ℤ
unfolding add_shared
score none candidate = pos 0
score (some target) none = pos 0
score (some target) (some candidate) = add_shared target candidate

-- One header with its body: whether it is a regular file, its size, and the digest of the body or
-- the error of reading it.
pub record TarEntry : Type 0 where
  pub is_regular : Bool
  pub size : ℤ
  pub body : Result String

-- What the calls of `Next` return until io.EOF: an entry, or an error.
pub data TarStep : Type 0 where
  entry : TarEntry → TarStep
  broken : Error → TarStep

add_body : Map ℤ → ℤ → Result String → Result (Map ℤ)
add_body fp size (ok d) = ok (if has d fp then fp else insert d size fp)
add_body fp size (err e) = err (wrap "fingerprint failed: tar body" e)

-- One round of the loop: other entries than regular files are skipped.
add_entry : Map ℤ → TarStep → Result (Map ℤ)
unfolding add_body
add_entry fp (broken e) = err (wrap "fingerprint failed: tar header" e)
add_entry fp (entry t) = if t.is_regular then add_body fp t.size t.body else ok fp

fingerprint_steps : Map ℤ → List TarStep → Result (Map ℤ)
fingerprint_steps fp [] = ok fp
fingerprint_steps fp (step ∷ steps) = do fp' ← add_entry fp step; fingerprint_steps fp' steps

-- fingerprintTar
unfoldable pub fingerprint_tar : List TarStep → Result (Map ℤ)
unfolding add_entry fingerprint_steps
fingerprint_tar steps = fingerprint_steps [] steps
