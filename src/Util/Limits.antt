-- ===== src/Util/Limits.antt =====
-- The names that pkg/util/common.go makes up stay within the limits of the services that get them.
use Prim.Native.String.append
use csi_gcs.Base.{
  ℕ, zero, suc, ◌+◌, ◌≤◌, ◌≡◌, ◌≢◌, refl, arith, Bool-cases, inl, inr, true, false, ltb, ◌==◌,
  length, take, codes, bytes, String, ◌<>◌, [], ◌∷◌, List,
}
use csi_gcs.Strconv.{format_uint}
use csi_gcs.Strconv.RoundTrip.{format_uint-ne-nil}
use csi_gcs.Strconv.Digits.{all_hex, length-format_uint, all_hex-format_uint}
use csi_gcs.World.{World}
use csi_gcs.Util.Crc.{checksum_ieee}
use csi_gcs.Util.Crc.Bounds.{checksum_ieee_lt}
use csi_gcs.Util.BucketName.{take_chars, lower_text, all_ascii, lower_prefix, bucket_name}
use csi_gcs.Util.Cluster.{mount_name}

-- One to eight digits of base 16.
pub record IsHexName (name : String) : Type 0 where
  pub nonempty : codes name ≢ []
  pub short : length (codes name) ≤ 8
  pub digits : all_hex (codes name) ≡ true

-- The name of a record of a mount has one to eight characters, each of 0 to 9 and a to f, whatever
-- the volume, the path and the node are: the Kubernetes API takes it as the name of an object.
pub mount_name-IsHexName :
    (volume_id target_path node : String) → IsHexName (mount_name volume_id target_path node)
unfolding mount_name
mount_name-IsHexName volume_id target_path node = record {
  nonempty = format_uint-ne-nil 16 _;
  short = length-format_uint _ (checksum_ieee_lt _);
  digits = all_hex-format_uint _;
}

length-lower_text : (s : String) → length (codes (lower_text s)) ≡ length (codes s)
unfolding lower_text
length-lower_text String.[] = refl
length-lower_text (String.◌∷◌ c s) = omega (arith, length-lower_text s)

length-take_chars : (n : ℕ) (s : String) → length (codes (take_chars n s)) ≤ n
unfolding take_chars
length-take_chars zero s = omega arith
length-take_chars (suc n) String.[] = omega arith
length-take_chars (suc n) (String.◌∷◌ c s) = omega (arith, length-take_chars n s)

take_chars-nonempty :
    (s : String) → (s == "") ≡ false → 1 ≤ length (codes (lower_text (take_chars 48 s)))
unfolding take_chars lower_text
take_chars-nonempty String.[] h = cc
take_chars-nonempty (String.◌∷◌ c s) h = omega arith

length-append : (s t : String) → length (codes (s <> t)) ≡ length (codes s) + length (codes t)
length-append String.[] t = rw (append.nil t) (omega arith)
length-append (String.◌∷◌ c s) t = rw (append.cons c s t) (omega (arith, length-append s t))

length-ne-zero : {A : Type 0} (l : List A) → l ≢ [] → 1 ≤ length l
length-ne-zero [] h = absurd (h refl)
length-ne-zero (x ∷ l) h = omega arith

all_ascii-take : (n : ℕ) (l : List ℕ) → all_ascii l ≡ true → all_ascii (take n l) ≡ true
all_ascii-take zero l h = refl
all_ascii-take (suc n) [] h = refl
all_ascii-take (suc n) (b ∷ l) h = ground (arith, all_ascii-take n l)

lower_prefix_lem :
    (W : World) (volume_id : String)
    → all_ascii (bytes volume_id) ≡ true
    → lower_prefix W volume_id ≡ lower_text (take_chars 48 volume_id)
lower_prefix_lem W volume_id ascii = elim (Bool-cases (ltb 48 (length (bytes volume_id)))) [
  | inl long ↦ rw (long, all_ascii-take 48 (bytes volume_id) ascii) refl
  | inr short ↦ rw (short, ascii) refl
]

-- For a name of a volume that is in ASCII and not empty, the name of the bucket has 3 to 57
-- characters: Cloud Storage takes names of 3 to 63.
pub length-bucket_name :
    (W : World) (volume_id : String)
    → (volume_id == "") ≡ false
    → all_ascii (bytes volume_id) ≡ true
    → (3 ≤ length (codes (bucket_name W volume_id)))
      × (length (codes (bucket_name W volume_id)) ≤ 57)
unfolding bucket_name
length-bucket_name W volume_id named ascii =
    let hex = format_uint (checksum_ieee volume_id) 16 in
    let prefix = lower_text (take_chars 48 volume_id) in
    let e = length-append prefix ("-" <> hex) in
    let e' = length-append "-" hex in
    let lower = take_chars-nonempty volume_id named in
    let upper = length-take_chars 48 volume_id in
    let same = length-lower_text (take_chars 48 volume_id) in
    let some_digit = length-ne-zero (codes hex) (format_uint-ne-nil 16 (checksum_ieee volume_id)) in
    let few_digits = length-format_uint (checksum_ieee volume_id) (checksum_ieee_lt volume_id) in
    rw (lower_prefix_lem W volume_id ascii)
      (omega (arith, e, e', lower, some_digit), omega (arith, e, e', same, upper, few_digits))
