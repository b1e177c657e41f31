-- ===== src/Main/Flags.antt =====
-- cmd/main.go: the flags of the command, and `setEnvVarFlags`.
pub mod Laws
pub mod Final
use Prim.Native.Char.{Char, code}
use csi_gcs.Base.{
  ◌-◌, String, Bool, true, false, ◌||◌, ◌&&◌, ◌==◌, ltb, leb, ◌=ᵇ◌, List, [], ◌∷◌, ◌++◌, Dict, push,
  if◌then◌else◌,
}
use csi_gcs.Flags.FlagSet.{Formal, bool_flag, value_flag}
use csi_gcs.Util.BucketName.{char_or}
use csi_gcs.Driver.Types.{csi_driver_name}
use csi_gcs.Main.CommandLine.{CommandLine, set_flag}

-- What the flags point to: the command's own variables, and klog's.
pub record Variables (K : Type 0) : Type 0 where
  pub node_name : String
  pub driver_name : String
  pub endpoint : String
  pub version : Bool
  pub delete_orphaned_pods : Bool
  pub klog : K

module _ {K : Type 0} where
  unfoldable pub declared : K → Variables K
  declared k = record {
    node_name = "";
    driver_name = csi_driver_name;
    endpoint = "unix:///csi/csi.sock";
    version = false;
    delete_orphaned_pods = false;
    klog = k;
  }

  unfoldable pub own_flags : Dict (Formal (Variables K))
  own_flags =
      ("node-name", value_flag (λ text v. (record v { node_name = text }, true)))
      ∷ ("driver-name", value_flag (λ text v. (record v { driver_name = text }, true)))
      ∷ ("csi-endpoint", value_flag (λ text v. (record v { endpoint = text }, true)))
      ∷ ("version", bool_flag (λ b v. record v { version = b }))
      ∷ ("delete-orphaned-pods", bool_flag (λ b v. record v { delete_orphaned_pods = b }))
      ∷ []

  abbrev pub with_klog : K × Bool → Variables K → Variables K × Bool
  with_klog (k, fine) v = (record v { klog = k }, fine)

  unfoldable pub lift : Formal K → Formal (Variables K)
  lift (bool_flag set) = bool_flag (λ b v. record v { klog = set b v.klog })
  lift (value_flag set) = value_flag (λ text v. with_klog (set text v.klog) v)

  unfoldable pub lift_all : Dict (Formal K) → Dict (Formal (Variables K))
  lift_all [] = []
  lift_all ((name, flag) ∷ flags) = (name, lift flag) ∷ lift_all flags

  -- The flags behind `klog.InitFlags(nil)`, which panics on a name that there is already.
  abbrev pub all_flags : Dict (Formal K) → Dict (Formal (Variables K))
  all_flags klog_flags = own_flags ++ lift_all klog_flags

-- `strings.Replace(strings.ToUpper(name), "-", "_", -1)`, of a name in ASCII
unfoldable pub upper_char : Char → Char
unfolding char_or
upper_char c =
    if leb b'a' (code c) && leb (code c) b'z'
    then char_or c "ABCDEFGHIJKLMNOPQRSTUVWXYZ" (code c - b'a')
    else char_or c (if code c =ᵇ b'-' then "_" else "") 0

unfoldable pub env_var : String → String
env_var String.[] = ""
env_var (String.◌∷◌ c s) = String.◌∷◌ (upper_char c) (env_var s)

-- `VisitAll` goes through the flags by their names in lexicographical order.
unfoldable pub name_ltb : String → String → Bool
name_ltb s String.[] = false
name_ltb String.[] (String.◌∷◌ d t) = true
name_ltb (String.◌∷◌ c s) (String.◌∷◌ d t) =
    ltb (code c) (code d) || ((code c =ᵇ code d) && name_ltb s t)

unfoldable pub sorted_insert : String → List String → List String
sorted_insert name [] = name ∷ []
sorted_insert name (first ∷ names) =
    if name_ltb first name then first ∷ sorted_insert name names else name ∷ first ∷ names

unfoldable pub sorted_names : {A : Type 0} → Dict A → List String
sorted_names [] = []
sorted_names ((name, flag) ∷ flags) = sorted_insert name (sorted_names flags)

unfoldable pub is_member : String → List String → Bool
is_member name [] = false
is_member name (first ∷ names) = (name == first) || is_member name names

module _ {V : Type 0} (formal : Dict (Formal V)) (getenv : String → String) where
  -- The loop of `VisitAll`, with the flags that `Visit` found set.
  unfoldable pub visit_flags : List String → List String → CommandLine V → CommandLine V
  visit_flags defined [] c = c
  visit_flags defined (name ∷ names) c =
      let text = getenv (env_var name) in
      visit_flags defined names
        (if (text == "") || is_member name defined then c else set_flag formal name text c)

  unfoldable pub set_env_var_flags : CommandLine V → CommandLine V
  set_env_var_flags c = visit_flags c.actual (sorted_names formal) c
