-- ===== src/Main/CommandLine.antt =====
-- Go's package flag, as far as cmd/main.go uses it: `flag.CommandLine` over the variables `V`, with
-- `ExitOnError`. Its flags are a map from their names.
use csi_gcs.Base.{
  String, Bool, true, false, ◌||◌, ◌==◌, Option, none, some, List, [], ◌∷◌, Dict, lookup,
  if◌then◌else◌,
}
use csi_gcs.Flags.FlagSet.{
  Formal, bool_flag, value_flag, parse_bool, read_arg, set_formal, stop, bad, named, halt, next,
  wants,
}

-- The variables, and the flags that have been set.
pub record CommandLine (V : Type 0) : Type 0 where
  pub vars : V
  pub actual : List String

-- How `Parse` ends: with the variables, with the help text, or with an error.
pub data Parsed (V : Type 0) : Type 0 where
  parsed : V → Parsed V
  helped failed : Parsed V

module _ {V : Type 0} where
  -- `Set` of a flag's value: a Boolean that cannot be read becomes false, beside the error.
  unfoldable pub set_value : Formal V → String → V → V × Bool
  set_value (bool_flag set) text v = let (b, fine) = parse_bool text in (set b v, fine)
  set_value (value_flag set) text v = set text v

  abbrev pub noted : String → List String → V × Bool → CommandLine V
  noted name actual (v, true) = record { vars = v; actual = name ∷ actual }
  noted name actual (v, false) = record { vars = v; actual = actual }

  abbrev pub set_found : String → String → CommandLine V → Option (Formal V) → CommandLine V
  set_found name text c none = c
  set_found name text c (some flag) = noted name c.actual (set_value flag text c.vars)

  -- `flagset.Set`, whose error main.go drops
  unfoldable pub set_flag : Dict (Formal V) → String → String → CommandLine V → CommandLine V
  set_flag formal name text c = set_found name text c (lookup name formal)

  -- `Parse`, with the flag that still waits for its value, if one does.
  unfoldable pub parse_args :
      Dict (Formal V) → Option (String → V × Bool) → List String → V → Parsed V
  parse_args formal none [] v = parsed v
  parse_args formal (some set) [] v = failed
  parse_args formal (some set) (text ∷ args) v =
      let (w, fine) = set text in
      let rest = parse_args formal none args w in if fine then rest else failed
  parse_args formal none (arg ∷ args) v = elim (read_arg arg) [
    | stop ↦ parsed v
    | bad ↦ failed
    | named name value ↦ elim (lookup name formal) [
      | none ↦ if name == "help" || name == "h" then helped else failed
      | some flag ↦ elim (set_formal flag value v) [
        | halt w ↦ failed
        | next w ↦ parse_args formal none args w
        | wants set ↦ parse_args formal (some set) args v
      ]
    ]
  ]
