-- ===== src/Model/Value.antt =====
-- The values of `any` that the program itself looks into: claims, and authorization details
-- (pkg/goidc/model.go). A value that it only passes on is an `other`, told apart by a number.
use goidc.Base.{ℕ, String, Bool, Option, none, some, List}
use goidc.Base.Dict.{lookup}

-- *int
pub data ℤ : Type 0 where
  pos : ℕ → ℤ
  negsuc : ℕ → ℤ

-- What an authorization detail holds under a key.
pub data Detail : Type 0 where
  text : String → Detail
  texts : List String → Detail
  other : ℕ → Detail

-- AuthorizationDetail, a map[string]any
abbrev pub AuthorizationDetail : Type 0
AuthorizationDetail = List (String × Detail)

-- The type assertion `value.(string)`, and "" where it fails.
abbrev as_string : Option Detail → String
as_string (some (Detail.text s)) = s
as_string o = ""

abbrev detail_string : String → AuthorizationDetail → String
detail_string key detail = as_string (lookup key detail)

-- AuthorizationDetail.Type
unfoldable pub detail_type : AuthorizationDetail → String
detail_type detail = detail_string "type" detail

-- AuthorizationDetail.Identifier
unfoldable pub detail_identifier : AuthorizationDetail → String
detail_identifier detail = detail_string "identifier" detail

-- The type assertion `value.([]string)`, and nil where it fails.
abbrev as_strings : Option Detail → Option (List String)
as_strings (some (Detail.texts ss)) = some ss
as_strings o = none

abbrev detail_string_slice : String → AuthorizationDetail → Option (List String)
detail_string_slice key detail = as_strings (lookup key detail)

unfoldable pub detail_locations : AuthorizationDetail → Option (List String)
detail_locations detail = detail_string_slice "locations" detail

unfoldable pub detail_actions : AuthorizationDetail → Option (List String)
detail_actions detail = detail_string_slice "actions" detail

unfoldable pub detail_data_types : AuthorizationDetail → Option (List String)
detail_data_types detail = detail_string_slice "datatypes" detail

pub data Value : Type 0 where
  text : String → Value
  number : ℕ → Value
  details : Option (List AuthorizationDetail) → Value
  confirmation : List (String × String) → Value
  texts : List String → Value
  flag : Bool → Value
  other : ℕ → Value

-- map[string]any; a Go map that is nil reads like an empty one, and is one here where no code tells
-- them apart.
abbrev pub Claims : Type 0
Claims = List (String × Value)
