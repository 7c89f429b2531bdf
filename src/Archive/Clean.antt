-- ===== src/Archive/Clean.antt =====
-- filepath.Clean on Unix, with a path as its parts, and safeJoin of internal/archive/reader.go.
pub mod Inside
use Prim.Native.Char.{code}
use Prim.Native.String.{◌++◌}
use diffah.Base.{ℕ, String, Bool, true, false, ◌&&◌, ◌||◌, List, [], ◌∷◌, leb, if◌then◌else◌, ◌==◌}
use diffah.Base.Disk.{join}
use diffah.Diff.Errors.{Result, ok, err, message}

is_separator : ℕ → Bool
is_separator c = leb b'/' c && leb c b'/'

add_char : String → List String → List String
add_char c [] = c ∷ []
add_char c (p ∷ parts) = (c ++ p) ∷ parts

-- The parts between the separators, some of them empty.
split : String → List String
unfolding is_separator add_char
split String.[] = "" ∷ []
split (String.◌∷◌ c s) =
    let parts = split s in
    if is_separator (code c) then "" ∷ parts else add_char (String.◌∷◌ c String.[]) parts

-- filepath.IsAbs
unfoldable pub is_abs : String → Bool
unfolding is_separator
is_abs String.[] = false
is_abs (String.◌∷◌ c s) = is_separator (code c)

-- ".." takes the last part away, if there is one that is not ".." itself.
go_up : Bool → List String → List String
go_up rooted [] = if rooted then [] else ".." ∷ []
go_up rooted (top ∷ stack) = if top == ".." then ".." ∷ top ∷ stack else stack

-- One part of the path onto the parts before it, which stand in reverse.
push : Bool → String → List String → List String
unfolding go_up
push rooted part stack =
    if part == "" || part == "."
    then stack
    else if part == ".."
    then go_up rooted stack
    else part ∷ stack

push_all : Bool → List String → List String → List String
push_all rooted [] stack = stack
push_all rooted (part ∷ parts) stack = push_all rooted parts (push rooted part stack)

reverse_onto : List String → List String → List String
reverse_onto [] acc = acc
reverse_onto (x ∷ xs) acc = reverse_onto xs (x ∷ acc)

-- The parts of filepath.Clean, none for "." or "/".
unfoldable pub clean_parts : String → List String
unfolding split is_abs push push_all reverse_onto
clean_parts name = reverse_onto (push_all (is_abs name) (split name) []) []

-- The clean path is ".." or has the prefix "../".
starts_up : List String → Bool
starts_up [] = false
starts_up (p ∷ parts) = p == ".."

-- filepath.Join of a clean directory and the parts of a clean relative path.
unfoldable pub under : String → List String → String
under dest [] = dest
under dest (p ∷ parts) = under (join dest p) parts

-- safeJoin; a clean path is absolute exactly if the path is.
unfoldable pub safe_join : String → String → Result String
unfolding clean_parts starts_up is_abs under
safe_join dest name =
    if is_abs name || starts_up (clean_parts name)
    then err (message "archive entry escapes destination")
    else ok (under dest (clean_parts name))
