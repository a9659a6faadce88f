-- ===== src/Base/Text.antt =====
-- Text, where the program walks it: case mapping and hexadecimal.
use Prim.Native.Nat.{ℕ, ◌+◌, ◌-◌, ◌/◌, ◌%◌}
use Prim.Native.Char.{Char, code}
use Prim.Native.String.{String, char_at}
use mathlib.Core.Bool.{◌&&◌}
use mathlib.Core.List.{List, [], ◌∷◌, ◌++◌}
use proof_layer.Base.Tests.{leb, if◌then◌else◌}

-- The code points of a text.
abbrev pub codes : String → List ℕ
codes String.[] = []
codes (String.◌∷◌ c s) = code c ∷ codes s

-- `unicode.ToLower`: the table of ASCII, and `wide` on every other character.
pub lower_char : (Char → Char) → Char → Char
lower_char wide c =
    if leb 65 (code c) && leb (code c) 90
    then char_at "abcdefghijklmnopqrstuvwxyz" (code c - 65)
    else if leb (code c) 127
    then c
    else wide c

-- `strings.ToLower`
unfoldable pub to_lower : (Char → Char) → String → String
unfolding lower_char
to_lower wide String.[] = ""
to_lower wide (String.◌∷◌ c s) = String.◌∷◌ (lower_char wide c) (to_lower wide s)

abbrev pub hex_digit : ℕ → Char
hex_digit n = char_at "0123456789abcdef" n

-- `hex.EncodeToString`
unfoldable pub hex : List ℕ → String
hex [] = ""
hex (b ∷ bs) = String.◌∷◌ (hex_digit (b / 16)) (String.◌∷◌ (hex_digit (b % 16)) (hex bs))

-- `strings.ToUpper` on the letters of ASCII; the program calls it on hexadecimal text only.
unfoldable pub upper_char : Char → Char
upper_char c =
    if leb 97 (code c) && leb (code c) 122
    then char_at "ABCDEFGHIJKLMNOPQRSTUVWXYZ" (code c - 97)
    else c

unfoldable pub to_upper : String → String
unfolding upper_char
to_upper String.[] = ""
to_upper (String.◌∷◌ c s) = String.◌∷◌ (upper_char c) (to_upper s)

abbrev utf8_size : ℕ → ℕ
utf8_size c = if leb c 127 then 1 else if leb c 2047 then 2 else if leb c 65535 then 3 else 4

-- `len` of a string: the bytes of its encoding as UTF-8.
abbrev pub byte_len : String → ℕ
byte_len String.[] = 0
byte_len (String.◌∷◌ c s) = utf8_size (code c) + byte_len s

utf8_char : ℕ → List ℕ
utf8_char c =
    if leb c 127
    then c ∷ []
    else if leb c 2047
    then (192 + c / 64) ∷ (128 + c % 64) ∷ []
    else if leb c 65535
    then (224 + c / 4096) ∷ (128 + c / 64 % 64) ∷ (128 + c % 64) ∷ []
    else (240 + c / 262144) ∷ (128 + c / 4096 % 64) ∷ (128 + c / 64 % 64) ∷ (128 + c % 64) ∷ []

-- `[]byte(s)`
unfoldable pub utf8 : String → List ℕ
unfolding utf8_char
utf8 String.[] = []
utf8 (String.◌∷◌ c s) = utf8_char (code c) ++ utf8 s
