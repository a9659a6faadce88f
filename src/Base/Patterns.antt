-- ===== src/Base/Patterns.antt =====
-- Go's regular expressions, where they are sequences of character classes.
use Prim.Native.Nat.{ℕ, zero, suc}
use Prim.Native.String.{String}
use mathlib.Core.Bool.{Bool, true, false, ◌&&◌, ◌||◌}
use mathlib.Core.List.{List, [], ◌∷◌, ◌++◌}
use proof_layer.Base.Tests.{leb, nat_eq}
use proof_layer.Base.Lists.{length, every}
use proof_layer.Base.Text.{codes}

-- A class of characters, by their code points.
abbrev pub Class : Type 0
Class = ℕ → Bool

abbrev pub between : ℕ → ℕ → Class
between low high c = leb low c && leb c high

abbrev pub is_digit : Class
is_digit = between b'0' b'9'

abbrev pub is_lower : Class
is_lower = between b'a' b'z'

abbrev pub is_upper : Class
is_upper = between b'A' b'Z'

-- [0-9a-f]
abbrev pub is_lower_hex : Class
is_lower_hex c = is_digit c || between b'a' b'f' c

-- [A-F0-9]
abbrev pub is_upper_hex : Class
is_upper_hex c = is_digit c || between b'A' b'F' c

-- [0-9a-fA-F]
abbrev pub is_any_hex : Class
is_any_hex c = is_lower_hex c || between b'A' b'F' c

abbrev pub is_char : ℕ → Class
is_char d c = nat_eq c d

-- [A-Za-z0-9_-]
abbrev pub is_url_safe : Class
is_url_safe c = is_upper c || is_lower c || is_digit c || is_char b'_' c || is_char b'-' c

abbrev pub times : ℕ → Class → List Class
times zero p = []
times (suc n) p = p ∷ times n p

-- One class for each character.
unfoldable pub matches : List Class → List ℕ → Bool
matches [] [] = true
matches (p ∷ ps) (c ∷ cs) = p c && matches ps cs
matches _ _ = false

-- `^[class]{low,high}$`
abbrev pub within : ℕ → ℕ → Class → String → Bool
within low high p s = leb low (length (codes s)) && leb (length (codes s)) high && every p (codes s)

-- The groups of a UUID, with its version and its variant.
abbrev pub uuid_classes : Class → Class → List Class
uuid_classes hex variant =
    times 8 hex
    ++ (is_char b'-'
        ∷ (times 4 hex
            ++ (is_char b'-'
                ∷ (between b'1' b'5'
                    ∷ (times 3 hex
                        ++ (is_char b'-'
                            ∷ (variant ∷ (times 3 hex ++ (is_char b'-' ∷ times 12 hex)))))))))
