-- ===== src/Manifest/Text.antt =====
-- What examples/fencedmanifest/manifest.go uses of strings: `strings.TrimSpace`, the UTF-8 bytes and
-- their number, and `hex.DecodeString` where only its length is asked for.
use Prim.Native.Char.{code}
use s3_lease.Prelude.{
  ℕ, ◌+◌, ◌*◌, ◌/◌, ◌%◌, Bool, true, ◌&&◌, ◌||◌, String, [], ◌∷◌, ◌++◌, ltb, leb, ◌==◌, length,
  if◌then◌else◌,
}
use s3_lease.Lease.Config.{is_space, is_blank}
use s3_lease.Lease.State.{Bytes}

abbrev trim_left : String → String
trim_left String.[] = ""
trim_left (String.◌∷◌ c s) =
    let rest = trim_left s in if is_space (code c) then rest else String.◌∷◌ c s

abbrev trim_right : String → String
trim_right String.[] = ""
trim_right (String.◌∷◌ c s) =
    let rest = trim_right s in if is_space (code c) && is_blank s then "" else String.◌∷◌ c rest

unfoldable pub trim_space : String → String
trim_space s = trim_right (trim_left s)

-- The UTF-8 bytes of a code point.
abbrev encode_rune : ℕ → Bytes
encode_rune c =
    if ltb c 0x80
    then c ∷ []
    else if ltb c 0x800
    then (0xc0 + c / 64) ∷ (0x80 + c % 64) ∷ []
    else if ltb c 0x1_0000
    then (0xe0 + c / 4096) ∷ (0x80 + c / 64 % 64) ∷ (0x80 + c % 64) ∷ []
    else (0xf0 + c / 262_144) ∷ (0x80 + c / 4096 % 64) ∷ (0x80 + c / 64 % 64) ∷ (0x80 + c % 64) ∷ []

unfoldable pub utf8 : String → Bytes
utf8 String.[] = []
utf8 (String.◌∷◌ c s) = encode_rune (code c) ++ utf8 s

-- `len(s)`
unfoldable pub byte_length : String → ℕ
unfolding utf8
byte_length s = length (utf8 s)

abbrev is_hex_digit : ℕ → Bool
is_hex_digit b = leb 48 b && leb b 57 || leb 65 b && leb b 70 || leb 97 b && leb b 102

abbrev all_hex : Bytes → Bool
all_hex [] = true
all_hex (b ∷ bytes) = is_hex_digit b && all_hex bytes

-- `validHex`: an odd number of digits, or another character, is an error of the decoder.
unfoldable pub valid_hex : String → ℕ → Bool
unfolding utf8
valid_hex value bytes = all_hex (utf8 value) && length (utf8 value) == 2 * bytes
