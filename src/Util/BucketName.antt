-- ===== src/Util/BucketName.antt =====
-- pkg/util/common.go: `BucketName`.
use Prim.Native.Char.{Char, code}
use csi_gcs.Base.{
  ℕ, zero, suc, ◌-◌, String, ◌<>◌, Bool, true, ◌&&◌, List, [], ◌∷◌, ltb, leb, length, take, bytes,
  if◌then◌else◌,
}
use csi_gcs.Strconv.{format_uint}
use csi_gcs.World.{World}
use csi_gcs.Util.Crc.{checksum_ieee}

unfoldable pub take_chars : ℕ → String → String
take_chars zero s = ""
take_chars (suc n) String.[] = ""
take_chars (suc n) (String.◌∷◌ c s) = String.◌∷◌ c (take_chars n s)

unfoldable pub char_or : Char → String → ℕ → Char
char_or d String.[] i = d
char_or d (String.◌∷◌ c s) zero = c
char_or d (String.◌∷◌ c s) (suc i) = char_or d s i

-- A to Z become a to z.
unfoldable pub lower_char : Char → Char
unfolding char_or
lower_char c =
    if leb b'A' (code c) && leb (code c) b'Z'
    then char_or c "abcdefghijklmnopqrstuvwxyz" (code c - b'A')
    else c

unfoldable pub lower_text : String → String
lower_text String.[] = ""
lower_text (String.◌∷◌ c s) = String.◌∷◌ (lower_char c) (lower_text s)

abbrev pub all_ascii : List ℕ → Bool
all_ascii [] = true
all_ascii (b ∷ s) = ltb b 0x80 && all_ascii s

module _ (W : World) where
  -- `volumeId[0:48]` cuts bytes. While these are ASCII, they are the characters.
  abbrev pub lower_prefix : String → String
  lower_prefix volume_id =
      let cut =
        if ltb 48 (length (bytes volume_id)) then take 48 (bytes volume_id) else bytes volume_id in
      if all_ascii cut then lower_text (take_chars 48 volume_id) else W.unicode_to_lower cut

  unfoldable pub bucket_name : String → String
  bucket_name volume_id =
      lower_prefix volume_id <> ("-" <> format_uint (checksum_ieee volume_id) 16)
