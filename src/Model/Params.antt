-- ===== src/Model/Params.antt =====
-- AuthorizationParameters and Merge of pkg/goidc/model.go.
use goidc.Base.{String, Bool, Option, none, some, List, [], ◌∷◌, is_empty, if◌then◌else◌}
use goidc.Base.Dict.{lookup}
use goidc.Model.Value.{ℤ, AuthorizationDetail}

pub record ClaimObjectInfo : Type 0 where
  pub is_essential : Bool
  pub value : String
  pub values : List String

pub record ClaimsObject : Type 0 where
  pub user_info : List (String × ClaimObjectInfo)
  pub id_token : List (String × ClaimObjectInfo)

-- `claim`, for UserInfoClaim and IDTokenClaim. The keys of a map are distinct.
unfoldable pub user_info_claim : String → ClaimsObject → Option ClaimObjectInfo
unfolding lookup
user_info_claim claim_name claims = lookup claim_name claims.user_info

unfoldable pub id_token_claim : String → ClaimsObject → Option ClaimObjectInfo
unfolding lookup
id_token_claim claim_name claims = lookup claim_name claims.id_token

-- In the order of the list, where Go ranges over a map in any order.
unfoldable pub essentials : List (String × ClaimObjectInfo) → List String
essentials [] = []
essentials (entry ∷ entries) =
    let rest = essentials entries in if entry.1.is_essential then entry.0 ∷ rest else rest

unfoldable pub user_info_essentials : ClaimsObject → List String
unfolding essentials
user_info_essentials claims = essentials claims.user_info

unfoldable pub id_token_essentials : ClaimsObject → List String
unfolding essentials
id_token_essentials claims = essentials claims.id_token

-- A pointer or a slice that may be nil is an `Option`.
pub record AuthorizationParameters : Type 0 where
  pub request_uri : String
  pub request_object : String
  pub redirect_uri : String
  pub response_mode : String
  pub response_type : String
  pub scopes : String
  pub state : String
  pub nonce : String
  pub code_challenge : String
  pub code_challenge_method : String
  pub prompt : String
  pub max_authn_age_secs : Option ℤ
  pub display : String
  pub acr_values : String
  pub claims : Option ClaimsObject
  pub authorization_details : Option (List AuthorizationDetail)

-- reflect.ValueOf(s).String(): the text itself of a string, and "<T Value>" of any other value.
pub record Reflected (A : Type 0) : Type 0 where
  pub string : A → String

instance abbrev pub text_reflected : Reflected String
text_reflected = record { string = λ s. s }

instance abbrev pub int_pointer_reflected : Reflected (Option ℤ)
int_pointer_reflected = record { string = λ p. "<*int Value>" }

abbrev pub non_empty_or_default : {A : Type 0} ⦃r : Reflected A⦄ → A → A → A
non_empty_or_default ⦃r⦄ s1 s2 = if is_empty (r.string s1) then s2 else s1

abbrev pub non_nil_or_default : {A : Type 0} → Option A → Option A → Option A
non_nil_or_default none s2 = s2
non_nil_or_default (some a) s2 = some a

-- The fields that the literal in the source leaves out are empty.
unfoldable pub merge : AuthorizationParameters → AuthorizationParameters → AuthorizationParameters
merge inside outside = record {
  request_uri = "";
  request_object = "";
  redirect_uri = non_empty_or_default inside.redirect_uri outside.redirect_uri;
  response_mode = non_empty_or_default inside.response_mode outside.response_mode;
  response_type = non_empty_or_default inside.response_type outside.response_type;
  scopes = non_empty_or_default inside.scopes outside.scopes;
  state = non_empty_or_default inside.state outside.state;
  nonce = non_empty_or_default inside.nonce outside.nonce;
  code_challenge = non_empty_or_default inside.code_challenge outside.code_challenge;
  code_challenge_method =
      non_empty_or_default inside.code_challenge_method outside.code_challenge_method;
  prompt = non_empty_or_default inside.prompt outside.prompt;
  max_authn_age_secs = non_empty_or_default inside.max_authn_age_secs outside.max_authn_age_secs;
  display = non_empty_or_default inside.display outside.display;
  acr_values = non_empty_or_default inside.acr_values outside.acr_values;
  claims = non_nil_or_default inside.claims outside.claims;
  authorization_details =
      non_nil_or_default inside.authorization_details outside.authorization_details;
}
