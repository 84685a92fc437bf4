-- ===== src/Provider/Options.antt =====
-- The options of a provider; those of requests and of client authentication are in its children (pkg/provider/provider.go).
pub mod Requests
pub mod Methods
use goidc.Base.{
  ℕ, suc, String, Bool, true, Option, List, [], ◌∷◌, ◌++◌, ◌==◌, any, contains, nat_eq,
  if◌then◌else◌,
}
use goidc.Model.Client.{Client, ClientMetaInfo, Scope}
use goidc.Model.Const.GrantType
use goidc.Model.Const.Profile
use goidc.Model.Const.ResponseType
use goidc.Model.Session.{TokenOptions}
use goidc.Oidc.Config.{AuthnPolicy, Request}
use goidc.Oidc.Effect.{Error}
use goidc.Provider.Defaults.{ProviderOption, on_config, scope_open_id}
use goidc.Storage.{ClientManager, AuthnSessionManager, GrantSessionManager, Fetched, found, failed}
use goidc.Token.Model.{refresh_token_length}
use Requests.{with_id}

unfoldable pub with_path_prefix : String → ProviderOption
with_path_prefix prefix = on_config λ c. record c { path_prefix = prefix }

unfoldable pub with_user_claims : List String → ProviderOption
with_user_claims claims = on_config λ c. record c { user_claims = claims }

-- WithUserInfoSignatureKeyIDs
unfoldable pub with_user_info_signature_key_ids : List String → ProviderOption
with_user_info_signature_key_ids key_ids = on_config λ c. record c {
  user_info_signature_key_ids = with_id c.default_user_info_signature_key_id key_ids;
}

-- WithIDTokenLifetime
unfoldable pub with_id_token_lifetime : ℕ → ProviderOption
with_id_token_lifetime secs = on_config λ c. record c { id_token_expires_in_secs = secs }

unfoldable pub with_user_info_encryption : List String → List String → ProviderOption
with_user_info_encryption key_algorithms content_algorithms = on_config λ c. record c {
  user_info_encryption_is_enabled = true;
  user_info_key_encryption_algorithms = c.user_info_key_encryption_algorithms ++ key_algorithms;
  user_info_content_encryption_algorithms =
      c.user_info_content_encryption_algorithms ++ content_algorithms;
}

-- WithDCR
unfoldable pub with_dcr : Option (Request → ClientMetaInfo → ClientMetaInfo) → Bool → ProviderOption
with_dcr plugin rotate_tokens = on_config λ c. record c {
  dcr_is_enabled = true;
  dcr_plugin = plugin;
  should_rotate_registration_tokens = rotate_tokens;
}

unfoldable pub with_refresh_token_grant : ℕ → Bool → ProviderOption
with_refresh_token_grant secs rotate_tokens = on_config λ c. record c {
  grant_types = c.grant_types ++ GrantType.refresh_token ∷ [];
  refresh_token_lifetime_secs = secs;
  should_rotate_refresh_tokens = rotate_tokens;
}

unfoldable pub with_open_id_scope_required : ProviderOption
with_open_id_scope_required = on_config λ c. record c { open_id_scope_is_required = true }

-- The token options with a length other than that of a refresh token.
abbrev pub told_apart : Fetched TokenOptions → Fetched TokenOptions
told_apart (failed message) = failed message
told_apart (found options) =
    if nat_eq options.opaque_token_length refresh_token_length
    then found (record options { opaque_token_length = suc options.opaque_token_length })
    else found options

unfoldable pub with_token_options : (Client → String → Fetched TokenOptions) → ProviderOption
with_token_options get_token_opts =
    on_config
      λ c. record c { token_options = λ client scopes. told_apart (get_token_opts client scopes) }

unfoldable pub with_implicit_grant : ProviderOption
with_implicit_grant = on_config λ c. record c {
  grant_types = c.grant_types ++ GrantType.implicit ∷ [];
  response_types =
      c.response_types
      ++ ResponseType.token ∷ ResponseType.id_token ∷ ResponseType.id_token_and_token
        ∷ ResponseType.code_and_id_token ∷ ResponseType.code_and_token
        ∷ ResponseType.code_and_id_token_and_token ∷ [];
}

unfoldable pub with_scopes : List Scope → ProviderOption
with_scopes scopes = on_config λ c. record c {
  scopes =
      if any (λ scope. scope.id == scope_open_id.id) scopes
      then scopes
      else scopes ++ scope_open_id ∷ [];
}

unfoldable pub with_issuer_response_parameter : ProviderOption
with_issuer_response_parameter =
    on_config λ c. record c { issuer_response_parameter_is_enabled = true }

unfoldable pub with_claims_parameter : ProviderOption
with_claims_parameter = on_config λ c. record c { claims_parameter_is_enabled = true }

unfoldable pub with_authorization_details : List String → ProviderOption
with_authorization_details types = on_config λ c. record c {
  authorization_details_parameter_is_enabled = true;
  authorization_detail_types = types;
}

-- WithACRs
unfoldable pub with_acrs : List String → ProviderOption
with_acrs values = on_config λ c. record c { authentication_context_references = values }

unfoldable pub with_display_values : List String → ProviderOption
with_display_values values = on_config λ c. record c { display_values = values }

unfoldable pub with_claim_types : List String → ProviderOption
with_claim_types types = on_config λ c. record c { claim_types = types }

unfoldable pub with_authentication_session_timeout : ℕ → ProviderOption
with_authentication_session_timeout secs =
    on_config λ c. record c { authentication_session_timeout_secs = secs }

-- WithProfileFAPI2
unfoldable pub with_profile_fapi2 : ProviderOption
with_profile_fapi2 = on_config λ c. record c { profile = Profile.fapi2 }

unfoldable pub with_storage :
    ClientManager → AuthnSessionManager → GrantSessionManager → ProviderOption
with_storage clients authn_sessions grant_sessions p = record p {
  client_manager = clients;
  authn_session_manager = authn_sessions;
  grant_session_manager = grant_sessions;
}

unfoldable pub with_static_client : Client → ProviderOption
with_static_client client p = record p { static_clients = p.static_clients ++ client ∷ [] }

unfoldable pub with_policy : AuthnPolicy → ProviderOption
with_policy policy = on_config λ c. record c { policies = c.policies ++ policy ∷ [] }

unfoldable pub with_authorize_error_plugin :
    Option (Request → Error → Option String) → ProviderOption
with_authorize_error_plugin plugin = on_config λ c. record c { authorize_error_plugin = plugin }
