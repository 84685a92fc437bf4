-- ===== src/Model/Client.antt =====
-- Client and ClientMetaInfo of pkg/goidc/client.go, and Scope of pkg/goidc/model.go. The methods
-- that fetch keys are in Oidc/Keys.
use goidc.Base.{
  String, Bool, true, Option, none, some, List, [], ◌∷◌, ◌++◌, ◌==◌, is_empty, contains, any, all,
  starts_with, if◌then◌else◌,
}
use goidc.Base.Dict.{insert}
use goidc.Base.Text.{split, contains_text}
use goidc.Model.Value.{ℤ, Claims, Value}

pub record Scope : Type 0 where
  pub id : String
  pub matches : String → Bool

unfoldable pub new_scope : String → Scope
new_scope scope = record { id = scope; matches = λ requested. scope == requested }

pub record ClientMetaInfo : Type 0 where
  pub name : String
  pub logo_uri : String
  pub redirect_uris : List String
  pub grant_types : List String
  pub response_types : Option (List String)
  pub public_jwks_uri : String
  pub public_jwks : Option String
  pub scopes : String
  pub subject_identifier_type : String
  pub id_token_signature_algorithm : String
  pub id_token_key_encryption_algorithm : String
  pub id_token_content_encryption_algorithm : String
  pub user_info_signature_algorithm : String
  pub user_info_key_encryption_algorithm : String
  pub user_info_content_encryption_algorithm : String
  pub jar_signature_algorithm : String
  pub jar_key_encryption_algorithm : String
  pub jar_content_encryption_algorithm : String
  pub jarm_signature_algorithm : String
  pub jarm_key_encryption_algorithm : String
  pub jarm_content_encryption_algorithm : String
  pub authn_method : String
  pub authn_signature_algorithm : String
  pub dpop_is_required : Bool
  pub tls_subject_distinguished_name : String
  pub tls_subject_alternative_name : String
  pub tls_subject_alternative_name_ip : String
  pub authorization_detail_types : Option (List String)
  pub default_max_age_secs : Option ℤ
  pub default_acr_values : String
  pub custom_attributes : Option Claims

pub record Client : Type 0 where
  pub id : String
  pub secret : String
  pub hashed_secret : String
  pub hashed_registration_access_token : String
  pub meta : ClientMetaInfo
  pub open meta use *

-- A slice that is nil has no elements.
abbrev pub elements {ℓ} : {A : Type ℓ} → Option (List A) → List A
elements none = []
elements (some xs) = xs

-- The available scopes whose ID the client's scope text contains.
unfoldable pub client_scopes : Client → List Scope → List Scope
client_scopes c [] = []
client_scopes c (scope ∷ available) =
    let rest = client_scopes c available in
    if contains_text c.scopes scope.id then scope ∷ rest else rest

-- One round of the loop over the requested scopes.
abbrev pub scope_is_matched : List Scope → String → Bool
scope_is_matched scopes requested = any (λ scope. scope.matches requested) scopes

unfoldable pub are_scopes_allowed : Client → List Scope → String → Bool
unfolding client_scopes
are_scopes_allowed c available requested =
    if is_empty requested
    then true
    else all (scope_is_matched (client_scopes c available)) (split requested)

unfoldable pub is_response_type_allowed : Client → String → Bool
is_response_type_allowed c response_type = contains (elements c.response_types) response_type

unfoldable pub is_grant_type_allowed : Client → String → Bool
is_grant_type_allowed c grant_type = contains c.grant_types grant_type

unfoldable pub is_redirect_uri_allowed : Client → String → Bool
is_redirect_uri_allowed c redirect_uri = any (λ ru. starts_with redirect_uri ru) c.redirect_uris

unfoldable pub allow_redirect_uri : String → Client → Client
allow_redirect_uri redirect_uri c = record c {
  meta = record c.meta { redirect_uris = c.redirect_uris ++ redirect_uri ∷ [] };
}

-- A client that announced no types may use any.
unfoldable pub is_authorization_detail_type_allowed : Client → String → Bool
is_authorization_detail_type_allowed c auth_detail_type = elim (c.authorization_detail_types) [
  | none ↦ true
  | some types ↦ contains types auth_detail_type
]

abbrev attributes : Option Claims → Claims
attributes none = []
attributes (some m) = m

unfoldable pub set_attribute : String → Value → Client → Client
unfolding insert
set_attribute key value c = record c {
  meta = record c.meta {
    custom_attributes = some (insert key value (attributes c.custom_attributes));
  };
}
