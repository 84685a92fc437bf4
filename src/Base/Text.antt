-- ===== src/Base/Text.antt =====
-- The functions of Go's `strings` package that the program calls, on texts walked character by
-- character: Split, Trim and ReplaceAll at the separator " ", and Contains.
use Prim.Native.Char.{Char, code}
use Prim.Native.String.{String}
use mathlib.Core.Bool.{Bool}
use mathlib.Core.List.{List, [], ◌∷◌}
use text.Mathlib.Text.{find?}
use goidc.Base.Tests.{nat_eq, if◌then◌else◌, is_some, is_empty}

abbrev pub is_space : Char → Bool
is_space c = nat_eq (code c) 32

abbrev push_front : Char → List String → List String
push_front c [] = (String.◌∷◌ c "") ∷ []
push_front c (w ∷ ws) = (String.◌∷◌ c w) ∷ ws

-- strings.Split(s, " "): the empty text has one empty part.
unfoldable pub split : String → List String
split String.[] = "" ∷ []
split (String.◌∷◌ c s) = let rest = split s in if is_space c then "" ∷ rest else push_front c rest

-- strings.ReplaceAll(s, " ", "")
unfoldable pub remove_spaces : String → String
remove_spaces String.[] = ""
remove_spaces (String.◌∷◌ c s) =
    let rest = remove_spaces s in if is_space c then rest else String.◌∷◌ c rest

unfoldable pub trim_left : String → String
trim_left String.[] = ""
trim_left (String.◌∷◌ c s) = let rest = trim_left s in if is_space c then rest else String.◌∷◌ c s

unfoldable pub trim_right : String → String
trim_right String.[] = ""
trim_right (String.◌∷◌ c s) =
    let rest = trim_right s in
    if is_space c then (if is_empty rest then "" else String.◌∷◌ c rest) else String.◌∷◌ c rest

-- strings.Trim(s, " ")
unfoldable pub trim : String → String
unfolding trim_left trim_right
trim s = trim_right (trim_left s)

-- strings.Contains(s, t)
unfoldable pub contains_text : String → String → Bool
contains_text s t = is_some (find? s t)
