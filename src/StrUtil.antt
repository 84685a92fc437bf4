-- ===== src/StrUtil.antt =====
-- internal/strutil: the tests on scope texts, and random texts.
pub mod Random
use goidc.Base.{String, Bool, List, [], ◌∷◌, is_empty, not, if◌then◌else◌, contains}
use goidc.Base.Text.{split, trim, remove_spaces}

-- SplitWithSpaces: a text of spaces alone has no parts.
unfoldable pub split_with_spaces : String → List String
split_with_spaces s = if not (is_empty (remove_spaces (trim s))) then split s else []

unfoldable pub contains_open_id : String → Bool
unfolding split_with_spaces
contains_open_id scopes = contains (split_with_spaces scopes) "openid"

unfoldable pub contains_offline_access : String → Bool
unfolding split_with_spaces
contains_offline_access scopes = contains (split_with_spaces scopes) "offline_access"
