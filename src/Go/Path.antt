-- ===== src/Go/Path.antt =====
-- Go's packages path and path/filepath on Unix: `Clean`, `Dir` and `Join`.
use Prim.Native.Char.{code}
use mathlib.Core.List.{reverse}
use csi_gcs.Base.{
  String, ◌<>◌, Bool, true, false, ◌&&◌, ◌||◌, ◌==◌, ◌≡◌, refl, List, [], ◌∷◌, ◌=ᵇ◌, push, join,
  if◌then◌else◌,
}

-- The parts between the slashes.
split_slash : String → String → List String
split_slash cur String.[] = cur ∷ []
split_slash cur (String.◌∷◌ c s) = elim (code c =ᵇ b'/') [
  | true ↦ cur ∷ split_slash "" s
  | false ↦ split_slash (push cur c) s
]

is_rooted : String → Bool
is_rooted String.[] = false
is_rooted (String.◌∷◌ c s) = code c =ᵇ b'/'

-- `..` removes a part, is dropped at the root, and stays at the front of a path with no root.
parent : Bool → List String → List String
parent rooted [] = if rooted then [] else ".." ∷ []
parent rooted (top ∷ stack) = if top == ".." then ".." ∷ top ∷ stack else stack

resolve : Bool → List String → String → List String
resolve rooted stack part =
    if part == "" || part == "."
    then stack
    else if part == ".."
    then parent rooted stack
    else part ∷ stack

resolve_all : Bool → List String → List String → List String
resolve_all rooted stack [] = reverse stack
resolve_all rooted stack (part ∷ parts) = resolve_all rooted (resolve rooted stack part) parts

unfoldable pub clean : String → String
unfolding split_slash is_rooted parent resolve resolve_all
clean path =
    let text = join (resolve_all (is_rooted path) [] (split_slash "" path)) "/" in
    if is_rooted path then "/" <> text else if text == "" then "." else text

-- All up to the last slash.
up_to_slash : String → String → String → String
up_to_slash done cur String.[] = done
up_to_slash done cur (String.◌∷◌ c s) =
    let cur' = push cur c in up_to_slash (if code c =ᵇ b'/' then cur' else done) cur' s

-- `filepath.Dir(path)`
unfoldable pub dir : String → String
unfolding up_to_slash clean
dir path = clean (up_to_slash "" "" path)

-- `path.Join(a, b)`
unfoldable pub path_join : String → String → String
unfolding clean
path_join a b =
    if a == "" && b == ""
    then ""
    else if a == ""
    then clean b
    else if b == ""
    then clean a
    else clean (a <> ("/" <> b))

paths :
    (clean "/a/../../b//./c/" ≡ "/b/c")
    × (clean "../a/.." ≡ "..")
    × (clean "" ≡ ".")
    × (dir "/tmp/keys/123" ≡ "/tmp/keys")
    × (dir "123" ≡ ".")
    × (path_join "csi" "/csi.sock" ≡ "csi/csi.sock")
unfolding clean dir path_join join
paths = (refl, refl, refl, refl, refl, refl)
