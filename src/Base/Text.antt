-- ===== src/Base/Text.antt =====
-- Go's `string`. The texts that reach the driver (protocol buffers, Kubernetes objects, flags) are
-- valid UTF-8, so a text is a list of Unicode characters; where the source walks or cuts the bytes
-- of a text, its UTF-8 encoding is walked or cut.
use Prim.Native.Char.{Char, code}
use Prim.Native.Nat.{ℕ, ◌+◌, ◌/◌, ◌%◌}
use Prim.Native.String.{String, ◌++◌ as ◌<>◌}
use mathlib.Core.Bool.{Bool, true, false, ◌||◌}
use mathlib.Core.List.{List, [], ◌∷◌, ◌++◌}
use text.Mathlib.Text.{starts_with, ◌==◌}
use csi_gcs.Base.Tests.{ltb, ◌=ᵇ◌, if◌then◌else◌}

abbrev pub codes : String → List ℕ
codes String.[] = []
codes (String.◌∷◌ c s) = code c ∷ codes s

-- The bytes of a code point.
abbrev pub utf8 : ℕ → List ℕ
utf8 c =
    if ltb c 0x80
    then c ∷ []
    else if ltb c 0x800
    then (0xc0 + c / 64) ∷ (0x80 + c % 64) ∷ []
    else if ltb c 0x10000
    then (0xe0 + c / 4096) ∷ (0x80 + c / 64 % 64) ∷ (0x80 + c % 64) ∷ []
    else (0xf0 + c / 262144) ∷ (0x80 + c / 4096 % 64) ∷ (0x80 + c / 64 % 64) ∷ (0x80 + c % 64) ∷ []

abbrev pub encode : List ℕ → List ℕ
encode [] = []
encode (c ∷ s) = utf8 c ++ encode s

-- `[]byte(s)`
unfoldable pub bytes : String → List ℕ
bytes s = encode (codes s)

-- `strings.Join(parts, sep)`
unfoldable pub join : List String → String → String
join [] sep = ""
join (p ∷ []) sep = p
join (p ∷ q ∷ ps) sep = p <> (sep <> join (q ∷ ps) sep)

abbrev pub push : String → Char → String
push s c = s <> String.◌∷◌ c String.[]

-- `strings.Split(s, ",")`: the loop over the characters, with the part that is not yet closed.
unfoldable pub split_comma : String → String → List String
split_comma cur String.[] = cur ∷ []
split_comma cur (String.◌∷◌ c s) = elim (code c =ᵇ b',') [
  | true ↦ cur ∷ split_comma "" s
  | false ↦ split_comma (push cur c) s
]

-- `strings.Contains(s, t)`
unfoldable pub contains : String → String → Bool
contains String.[] t = t == ""
contains (String.◌∷◌ c s) t = starts_with (String.◌∷◌ c s) t || contains s t
