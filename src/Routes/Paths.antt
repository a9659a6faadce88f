-- ===== src/Routes/Paths.antt =====
-- What runner_routes.go uses of Go's package strings: cutting a path, a prefix and a suffix.
use Prim.Native.Char.{Char, code}
use proof_layer.Base.{
  Bool, ◌&&◌, String, Option, none, some, List, [], ◌∷◌, ◌==◌, String_eq, nat_eq, if◌then◌else◌,
}

abbrev is_slash : Char → Bool
is_slash c = nat_eq (code c) b'/'

abbrev with_first : Char → List String → List String
with_first c [] = String.◌∷◌ c "" ∷ []
with_first c (w ∷ ws) = String.◌∷◌ c w ∷ ws

-- `strings.Split(s, "/")`
unfoldable pub split_slashes : String → List String
split_slashes String.[] = "" ∷ []
split_slashes (String.◌∷◌ c s) =
    let rest = split_slashes s in if is_slash c then "" ∷ rest else with_first c rest

unfoldable pub trim_left : String → String
trim_left String.[] = ""
trim_left (String.◌∷◌ c s) = let rest = trim_left s in if is_slash c then rest else String.◌∷◌ c s

unfoldable pub trim_right : String → String
trim_right String.[] = ""
trim_right (String.◌∷◌ c s) =
    let rest = trim_right s in if rest == "" && is_slash c then "" else String.◌∷◌ c rest

-- `strings.Trim(s, "/")`
abbrev pub trim_slashes : String → String
trim_slashes s = trim_right (trim_left s)

-- `strings.HasPrefix` and `strings.TrimPrefix`: what stands behind the prefix, if it is there.
unfoldable pub strip_prefix : String → String → Option String
strip_prefix String.[] s = some s
strip_prefix (String.◌∷◌ a p) String.[] = none
strip_prefix (String.◌∷◌ a p) (String.◌∷◌ b s) =
    let rest = strip_prefix p s in if nat_eq (code a) (code b) then rest else none

-- `strings.HasSuffix` and `strings.TrimSuffix`: what stands before the suffix, if it is there.
unfoldable pub strip_suffix : String → String → Option String
strip_suffix x String.[] = if x == "" then some "" else none
strip_suffix x (String.◌∷◌ c s) =
    let rest = strip_suffix x s in
    if String.◌∷◌ c s == x
    then some ""
    else (elim rest [ none ↦ none | some t ↦ some (String.◌∷◌ c t) ])
