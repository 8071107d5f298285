-- ===== src/Router/GoPaths.antt =====
-- The functions of Go's package path that pkg/router/router.go calls; on Unix, `filepath.Clean` is
-- `path.Clean`.
use cs.Prelude.{String, Bool, false, List, [], ◌∷◌}
use Prim.Native.Char.{Char, code}
use Prim.Native.String.{[] as nil, ◌∷◌ as cons, ◌++◌ as str_append}
use mathlib.Core.List.{reverse}
use cs.Prelude.Tests.{if◌then◌else◌, ◌==◌}
use text.Mathlib.Text.{◌==◌ as same_text}
use cs.Router.{Paths}

abbrev is_slash : Char → Bool
is_slash c = code c == 47

-- A character in front of the first element.
unfoldable pub prepend : Char → List String → List String
prepend c [] = cons c nil ∷ []
prepend c (element ∷ elements) = cons c element ∷ elements

-- The elements between the slashes of a path, empty ones too.
unfoldable pub elements_of : String → List String
elements_of nil = "" ∷ []
elements_of (cons c path) =
    let rest = elements_of path in if is_slash c then "" ∷ rest else prepend c rest

unfoldable pub is_rooted : String → Bool
is_rooted nil = false
is_rooted (cons c path) = is_slash c

-- An element ".." takes away the element before it, if there is one that is not itself "..", and
-- is dropped at the root. The last element is at the head.
unfoldable pub parent : Bool → List String → List String
parent rooted [] = if rooted then [] else ".." ∷ []
parent rooted (element ∷ elements) =
    if same_text element ".." then ".." ∷ element ∷ elements else elements

unfoldable pub resolve : Bool → List String → List String → List String
resolve rooted seen [] = reverse seen
resolve rooted seen (element ∷ rest) =
    let kept = resolve rooted seen rest in
    let up = resolve rooted (parent rooted seen) rest in
    let down = resolve rooted (element ∷ seen) rest in
    if same_text element ""
    then kept
    else if same_text element "."
    then kept
    else if same_text element ".."
    then up
    else down

unfoldable pub join_elements : List String → String
join_elements [] = ""
join_elements (element ∷ []) = element
join_elements (element ∷ (next ∷ rest)) =
    str_append element (str_append "/" (join_elements (next ∷ rest)))

unfoldable pub relative : String → String
relative path = if same_text path "" then "." else path

unfoldable pub clean_path : String → String
clean_path path =
    let cleaned = join_elements (resolve (is_rooted path) [] (elements_of path)) in
    if is_rooted path then str_append "/" cleaned else relative cleaned

-- Empty paths are left out; of two empty paths the join is empty.
unfoldable pub join_paths : String → String → String
join_paths p q =
    if same_text p ""
    then (if same_text q "" then "" else clean_path q)
    else if same_text q ""
    then clean_path p
    else clean_path (str_append p (str_append "/" q))

abbrev pub go_paths : Paths
go_paths = record { join = join_paths; clean = clean_path }
