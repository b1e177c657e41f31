-- ===== src/Flags/FlagSet.antt =====
-- Go's package flag, as far as `MergeMountOptions` uses it: a `FlagSet` over the variables `V`, with
-- `ContinueOnError`. `Parse` stops at the first argument that is no flag and at the first error; what
-- it has set by then stays set. Its error reaches the log alone, so the model returns the variables.
use Prim.Native.Char.{Char, code}
use csi_gcs.Base.{
  String, Bool, true, false, ◌||◌, ◌==◌, Option, none, some, List, [], ◌∷◌, ◌=ᵇ◌, push,
  if◌then◌else◌,
}

-- What one argument says.
pub data Arg : Type 0 where
  stop bad : Arg
  named : String → Option String → Arg

-- The name of a flag ends at the first `=` behind its first character.
unfoldable pub split_equals : String → String → Arg
split_equals name String.[] = named name none
split_equals name (String.◌∷◌ c s) = elim (code c =ᵇ b'=') [
  | true ↦ named name (some s)
  | false ↦ split_equals (push name c) s
]

unfoldable pub read_name : String → Arg
read_name String.[] = bad
read_name (String.◌∷◌ c s) =
    if (code c =ᵇ b'-') || (code c =ᵇ b'=') then bad else split_equals (String.◌∷◌ c String.[]) s

-- `--` alone ends the flags.
read_dashes : Char → String → Arg
read_dashes c String.[] = if code c =ᵇ b'-' then stop else read_name (String.◌∷◌ c String.[])
read_dashes c s = if code c =ᵇ b'-' then read_name s else read_name (String.◌∷◌ c s)

unfoldable pub read_arg : String → Arg
unfolding read_dashes
read_arg String.[] = stop
read_arg (String.◌∷◌ c String.[]) = stop
read_arg (String.◌∷◌ c (String.◌∷◌ d s)) = if code c =ᵇ b'-' then read_dashes d s else stop

-- `strconv.ParseBool`, and whether it read a Boolean.
unfoldable pub parse_bool : String → Bool × Bool
parse_bool s =
    if s == "1" || s == "t" || s == "T" || s == "true" || s == "TRUE" || s == "True"
    then (true, true)
    else (false, s == "0" || s == "f" || s == "F" || s == "false" || s == "FALSE" || s == "False")

module _ (V : Type 0) where
  -- A flag's `Set`: the new variables, and whether there was no error.
  pub data Formal : Type 0 where
    bool_flag : (Bool → V → V) → Formal
    value_flag : (String → V → V × Bool) → Formal

  pub data Step : Type 0 where
    halt next : V → Step
    wants : (String → V × Bool) → Step

module _ {V : Type 0} where
  -- The parse goes on if there was no error.
  abbrev pub after_set : V × Bool → Step V
  after_set (v, true) = next v
  after_set (v, false) = halt v

  unfoldable pub set_formal : Formal V → Option String → V → Step V
  set_formal (bool_flag set) none v = next (set true v)
  set_formal (bool_flag set) (some text) v =
      let (b, fine) = parse_bool text in after_set (set b v, fine)
  set_formal (value_flag set) (some text) v = after_set (set text v)
  set_formal (value_flag set) none v = wants (λ text. set text v)

  -- `parseOne`, up to the value that may be the next argument.
  unfoldable pub parse_one : (String → Option (Formal V)) → Arg → V → Step V
  unfolding set_formal
  parse_one formal stop v = halt v
  parse_one formal bad v = halt v
  parse_one formal (named name value) v = elim (formal name) [
    | none ↦ halt v
    | some flag ↦ set_formal flag value v
  ]

  -- `Parse`
  unfoldable pub parse : (String → Option (Formal V)) → List String → V → V
  parse formal [] v = v
  parse formal (arg ∷ []) v = elim (parse_one formal (read_arg arg) v) [
    | halt w ↦ w
    | next w ↦ w
    | wants set ↦ v
  ]
  parse formal (arg ∷ value ∷ args) v = elim (parse_one formal (read_arg arg) v) [
    | halt w ↦ w
    | next w ↦ parse formal (value ∷ args) w
    | wants set ↦
        let (w, fine) = set value in let rest = parse formal args w in if fine then rest else w
  ]
