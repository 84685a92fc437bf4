-- ===== src/Tests/Runs.antt =====
-- A line `unfolding runs` lets an example run any function of the model.
use goidc.Api.{write, write_jwt, write_error, answer, execute_authorize_error_plugin}
use goidc.Api.Authorize.{push_handler, with_error_plugin, authorize_handler, callback_handler}
use goidc.Api.Dcr.{request_for, create_handler, update_handler, get_handler, delete_handler}
use goidc.Api.Discovery.{well_known_handler, jwks_handler}
use goidc.Api.Requests.{
  value_of, new_token_request, new_token_introspection_request, params_of,
  new_authorization_request, new_pushed_authorization_request,
}
use goidc.Api.Token.{token_handler, introspection_handler}
use goidc.Api.UserInfo.{user_info_handler}
use goidc.Authn.{
  authenticate_with_none_authn, validate_secret, authenticate_with_client_secret_post,
  authenticate_with_client_secret_basic, authenticate_client, client,
}
use goidc.Authn.Assertion.{
  are_assertion_claims_valid, authenticate_with_private_key_jwt,
  authenticate_with_client_secret_jwt,
}
use goidc.Authn.Certificates.{
  compare_public_keys, last_matching_jwk, authenticate_with_self_signed_tls_certificate,
  authenticate_with_tls_certificate,
}
use goidc.Authn.ClientId.{
  new_client_authn_request, all_equals, get_client_id_from_assertion,
  append_client_id_from_assertion, get_client_id,
}
use goidc.Authorize.Checks.{
  validate_in_with_out_params, validate_request_with_par, validate_request_with_jar,
  validate_pushed_request, validate_pushed_request_with_jar,
}
use goidc.Authorize.Flow.{
  finish_flow_with_failure, stop_flow_in_progress, authorize_authn_session,
  new_implicit_grant_options, generate_implicit_grant_session, finish_flow_successfully,
  authenticate, init_auth_no_redirect, init_auth, continue_auth, push_authorization,
}
use goidc.Authorize.Jar.{
  signed_request_object_from_encrypted_request_object, jar_from_signed_request_object,
  jar_from_request_object,
}
use goidc.Authorize.Redirect.{
  response_mode, respond, sign_jarm_response, create_jarm_response, response_of, redirect_response,
  redirect_error,
}
use goidc.Authorize.Request.{parameters, new_authn_session, on_state, on_client, allow}
use goidc.Authorize.Session.{
  should_init_authn_session_with_par, should_init_authn_session_with_jar, authn_session_with_par,
  get_jar, authn_session_with_jar, init_valid_simple_authn_session, authn_session,
  find_available_policy, init_authn_session_with_policy, init_authn_session, protected_params,
  pushed_simple_authn_session, pushed_authn_session_with_jar, pushed_authn_session,
}
use goidc.Authorize.Validation.{
  validate_scopes, validate_pkce, validate_response_type, validate_response_mode,
  validate_authorization_details, validate_acr_values, validate_params, validate_params_authorize,
}
use goidc.Base.Dict.{insert, lookup, erase, copy}
use goidc.Base.Text.{split, remove_spaces, trim_left, trim_right, trim, contains_text}
use goidc.Dcr.{
  execute_dcr_plugin, register, set_creation_defaults, create, set_update_defaults, update,
  client as dcr_client, remove,
}
use goidc.Dcr.Client.{
  with_default_method, with_defaults, has_secret, client_id, client_secret,
  registration_access_token, set_defaults, new_client, registration_uri,
  is_registration_access_token_valid, protected_client,
}
use goidc.Dcr.Validation.{
  validate_grant_types, validate_redirect_uris, validate_response_types, validate_authn_method,
  validate_open_id_scope_if_required, validate_subject_identifier_type,
  validate_jwks_are_required_for_private_key_jwt_authn,
  validate_jwks_is_required_when_self_signed_tls_authn, validate_tls_subject_info_when_tls_authn,
  validate_public_jwks, validate_public_jwks_uri, validate_authorization_detail_types,
  validate_refresh_token_grant, validate_scopes as validation_validate_scopes,
  validate_dynamic_client_request,
}
use goidc.Dcr.Validation.Algorithms.{
  run_validations, validate_id_token_signature_algorithm, validate_user_info_signature_algorithm,
  validate_jar_signature_algorithm, validate_jarm_signature_algorithm,
  validate_client_signature_algorithm_for_private_key_jwt,
  validate_client_signature_algorithm_for_client_secret_jwt,
  validate_id_token_encryption_algorithms, validate_user_info_encryption_algorithms,
  validate_jarm_encryption_algorithms, validate_jar_encryption_algorithms,
}
use goidc.Discovery.{mtls_configuration, document, well_known}
use goidc.Model.Client.{
  new_scope, client_scopes, are_scopes_allowed, is_response_type_allowed, is_grant_type_allowed,
  is_redirect_uri_allowed, allow_redirect_uri, is_authorization_detail_type_allowed, set_attribute,
}
use goidc.Model.Const.ResponseMode.{is_jarm, is_plain, is_query}
use goidc.Model.Const.ResponseType.{has, is_implicit}
use goidc.Model.Params.{
  user_info_claim, id_token_claim, essentials, user_info_essentials, id_token_essentials, merge,
}
use goidc.Model.Session.{
  add_token_claims, new_jwt_token_options, new_opaque_token_options, update_params,
  set_claim_id_token, authn_session_is_expired, grant_session_is_expired, has_last_token_expired,
}
use goidc.Model.Session.Assign.{
  set_user_id, store_parameter, parameter, set_claim_token, set_acr_claim_id_token,
  set_auth_time_claim_id_token, set_amr_claim_id_token, set_claim_user_info,
  set_acr_claim_user_info, set_auth_time_claim_user_info, set_amr_claim_user_info, grant_scopes,
  grant_authorization_details,
}
use goidc.Model.Session.Info.{marshal_json}
use goidc.Model.Value.{
  detail_type, detail_identifier, detail_locations, detail_actions, detail_data_types,
}
use goidc.Oidc.Algorithms.{
  key_encryption_algorithms, key_signature_algorithms, user_info_signature_algorithms,
  jarm_signature_algorithms, jar_key_encryption_algorithms,
  introspection_client_signature_algorithms, base_url, mtls_base_url,
}
use goidc.Oidc.Context.{
  client_by_id, client_written, save_client, delete_client, save_grant_session,
  grant_session_by_token_id, grant_session_by_refresh_token, delete_grant_session,
  grant_session_written, save_authn_session, authn_session_by_callback_id,
  authn_session_by_authorization_code, authn_session_by_request_uri, delete_authn_session,
  authn_session_written, policy_by_id,
}
use goidc.Oidc.Effect.{code, description, pure, raise, fault, gets, check, modify, ◌>>=◌}
use goidc.Oidc.ErrorCode.{status_code}
use goidc.Oidc.Http.{
  dpop_jwt, header, client_certificate, authorization_token, bearer_token, audiences,
}
use goidc.Oidc.Keys.{
  algorithms_for_signatures, find_encryption_key, find_private_key, private_key, public_key,
  token_signature_key, private_key_based_on_algorithm_or_default, user_info_signature_key,
  id_token_signature_key, jarm_signature_key, signature_algorithms, public_keys,
  client_signature_algorithms, fetch_public_jwks, client_public_key, encryption_jwk,
}
use goidc.Provider.{new, token_info, client as provider_client}
use goidc.Provider.Defaults.{default_config, default_provider}
use goidc.Provider.Options.{
  with_path_prefix, with_user_claims, with_user_info_signature_key_ids, with_id_token_lifetime,
  with_user_info_encryption, with_dcr, with_refresh_token_grant, with_open_id_scope_required,
  with_token_options, with_implicit_grant, with_scopes, with_issuer_response_parameter,
  with_claims_parameter, with_authorization_details, with_acrs, with_display_values,
  with_claim_types, with_authentication_session_timeout, with_profile_fapi2, with_storage,
  with_static_client, with_policy, with_authorize_error_plugin,
}
use goidc.Provider.Options.Methods.{
  with_basic_secret_authn, with_secret_post_authn, with_private_key_jwt_authn,
  with_client_secret_jwt_authn, with_tls_authn, with_self_signed_tls_authn, with_mtls,
  with_tls_bound_tokens, with_none_authn, with_introspection,
}
use goidc.Provider.Options.Requests.{
  with_par, with_par_required, with_jar, with_jar_required, with_jar_encryption, with_jarm,
  with_jarm_encryption, with_dpop, with_dpop_required, with_sender_constrained_tokens_required,
  with_pkce, with_pkce_required,
}
use goidc.Provider.Routes.{handler, mtls_handler}
use goidc.Provider.Validation.{
  run_validations as validation_run_validations, validate_jwks, validate_signature_keys,
  validate_encryption_keys, validate_private_key_jwt_signature_algorithms,
  validate_client_secret_jwt_signature_algorithms, validate_introspection_client_authn_methods,
  validate_user_info_encryption, validate_jar_encryption, validate_jarm_encryption,
  validate_token_binding, validate_open_id_profile, validate_fapi2_profile, validate_configuration,
}
use goidc.Storage.InMemory.Map.{find_first, values, write_through}
use goidc.StrUtil.{split_with_spaces, contains_open_id, contains_offline_access}
use goidc.StrUtil.Random.{random}
use goidc.Token.AuthzCode.{
  validate_authorization_code_grant_request, new_authorization_code_grant_options, refresh_token,
  store_grant_session, add_refresh_token, generate_authorization_code_grant_session,
  get_session_by_authorization_code, get_authenticated_client_and_session, issue_for_session,
  handle_authorization_code_grant_token_creation,
}
use goidc.Token.Binding.{
  validate_token_binding_is_required, validate_token_binding_request_with_dpop,
}
use goidc.Token.Claims.{is_jws, is_jwe, valid_claims, token_id, handle_token_creation}
use goidc.Token.ClientCredentials.{
  validate_client_credentials_grant_request, new_client_credentials_grant_options,
  generate_client_credentials_grant_session, issue_for_client,
  handle_client_credentials_grant_token_creation,
}
use goidc.Token.IdToken.{
  half_hash_id_token_claim, add_hash, make_signed_id_token, encrypt_jwt, encrypt_for_client,
  make_id_token,
}
use goidc.Token.Introspection.{
  refresh_token_introspection_info, token_introspection_info_by_id, jwt_token_introspection_info,
  token_introspection_info, validate_token_introspection_request, introspect,
}
use goidc.Token.Make.{
  new_uuid, random_text, jkt_binding, token_type_binding, certificate_binding, jwt_token_claims,
  make_jwt_token, make_opaque_token, make,
}
use goidc.Token.Model.{new_grant_options, new_id_token_options, new_grant_session}
use goidc.Token.Pkce.{is_pkce_valid, effective_method, validate_pkce as pkce_validate_pkce}
use goidc.Token.Pop.{
  hash_base64_url_sha256, jwk_thumbprint, validate_dpop_claims, validate_dpop_jwt, validate_dpop,
  validate_tls_pop, validate_pop,
}
use goidc.Token.RefreshToken.{
  contains_all_scopes, validate_refresh_token_proof_of_possession, delete_expired,
  validate_refresh_token_grant_request, get_grant_session_by_refresh_token,
  get_authenticated_client_and_grant_session, rotate, update_refresh_token_grant_session, renew,
  handle_refresh_token_grant_token_creation,
}
use goidc.UserInfo.{
  validate_user_info_request, sign_user_info_claims, user_info_claims, get_user_info_response,
  handle_user_info_request,
}

unfoldable pub runs : Unit {0}
unfolding write write_jwt write_error answer execute_authorize_error_plugin push_handler
    with_error_plugin authorize_handler callback_handler request_for create_handler update_handler
    get_handler delete_handler well_known_handler jwks_handler value_of new_token_request
    new_token_introspection_request params_of new_authorization_request
    new_pushed_authorization_request token_handler introspection_handler user_info_handler
    authenticate_with_none_authn validate_secret authenticate_with_client_secret_post
    authenticate_with_client_secret_basic authenticate_client client are_assertion_claims_valid
    authenticate_with_private_key_jwt authenticate_with_client_secret_jwt compare_public_keys
    last_matching_jwk authenticate_with_self_signed_tls_certificate
    authenticate_with_tls_certificate new_client_authn_request all_equals
    get_client_id_from_assertion append_client_id_from_assertion get_client_id
    validate_in_with_out_params validate_request_with_par validate_request_with_jar
    validate_pushed_request validate_pushed_request_with_jar finish_flow_with_failure
    stop_flow_in_progress authorize_authn_session new_implicit_grant_options
    generate_implicit_grant_session finish_flow_successfully authenticate init_auth_no_redirect
    init_auth continue_auth push_authorization signed_request_object_from_encrypted_request_object
    jar_from_signed_request_object jar_from_request_object response_mode respond sign_jarm_response
    create_jarm_response response_of redirect_response redirect_error parameters new_authn_session
    on_state on_client allow should_init_authn_session_with_par should_init_authn_session_with_jar
    authn_session_with_par get_jar authn_session_with_jar init_valid_simple_authn_session
    authn_session find_available_policy init_authn_session_with_policy init_authn_session
    protected_params pushed_simple_authn_session pushed_authn_session_with_jar pushed_authn_session
    validate_scopes validate_pkce validate_response_type validate_response_mode
    validate_authorization_details validate_acr_values validate_params validate_params_authorize
    insert lookup erase copy split remove_spaces trim_left trim_right trim contains_text
    execute_dcr_plugin register set_creation_defaults create set_update_defaults update dcr_client
    remove with_default_method with_defaults has_secret client_id client_secret
    registration_access_token set_defaults new_client registration_uri
    is_registration_access_token_valid protected_client validate_grant_types validate_redirect_uris
    validate_response_types validate_authn_method validate_open_id_scope_if_required
    validate_subject_identifier_type validate_jwks_are_required_for_private_key_jwt_authn
    validate_jwks_is_required_when_self_signed_tls_authn validate_tls_subject_info_when_tls_authn
    validate_public_jwks validate_public_jwks_uri validate_authorization_detail_types
    validate_refresh_token_grant validation_validate_scopes validate_dynamic_client_request
    run_validations validate_id_token_signature_algorithm validate_user_info_signature_algorithm
    validate_jar_signature_algorithm validate_jarm_signature_algorithm
    validate_client_signature_algorithm_for_private_key_jwt
    validate_client_signature_algorithm_for_client_secret_jwt
    validate_id_token_encryption_algorithms validate_user_info_encryption_algorithms
    validate_jarm_encryption_algorithms validate_jar_encryption_algorithms mtls_configuration
    document well_known new_scope client_scopes are_scopes_allowed is_response_type_allowed
    is_grant_type_allowed is_redirect_uri_allowed allow_redirect_uri
    is_authorization_detail_type_allowed set_attribute is_jarm is_plain is_query has is_implicit
    user_info_claim id_token_claim essentials user_info_essentials id_token_essentials merge
    add_token_claims new_jwt_token_options new_opaque_token_options update_params set_claim_id_token
    authn_session_is_expired grant_session_is_expired has_last_token_expired set_user_id
    store_parameter parameter set_claim_token set_acr_claim_id_token set_auth_time_claim_id_token
    set_amr_claim_id_token set_claim_user_info set_acr_claim_user_info set_auth_time_claim_user_info
    set_amr_claim_user_info grant_scopes grant_authorization_details marshal_json detail_type
    detail_identifier detail_locations detail_actions detail_data_types key_encryption_algorithms
    key_signature_algorithms user_info_signature_algorithms jarm_signature_algorithms
    jar_key_encryption_algorithms introspection_client_signature_algorithms base_url mtls_base_url
    client_by_id client_written save_client delete_client save_grant_session
    grant_session_by_token_id grant_session_by_refresh_token delete_grant_session
    grant_session_written save_authn_session authn_session_by_callback_id
    authn_session_by_authorization_code authn_session_by_request_uri delete_authn_session
    authn_session_written policy_by_id code description pure raise fault gets check modify ◌>>=◌
    status_code dpop_jwt header client_certificate authorization_token bearer_token audiences
    algorithms_for_signatures find_encryption_key find_private_key private_key public_key
    token_signature_key private_key_based_on_algorithm_or_default user_info_signature_key
    id_token_signature_key jarm_signature_key signature_algorithms public_keys
    client_signature_algorithms fetch_public_jwks client_public_key encryption_jwk new token_info
    provider_client default_config default_provider with_path_prefix with_user_claims
    with_user_info_signature_key_ids with_id_token_lifetime with_user_info_encryption with_dcr
    with_refresh_token_grant with_open_id_scope_required with_token_options with_implicit_grant
    with_scopes with_issuer_response_parameter with_claims_parameter with_authorization_details
    with_acrs with_display_values with_claim_types with_authentication_session_timeout
    with_profile_fapi2 with_storage with_static_client with_policy with_authorize_error_plugin
    with_basic_secret_authn with_secret_post_authn with_private_key_jwt_authn
    with_client_secret_jwt_authn with_tls_authn with_self_signed_tls_authn with_mtls
    with_tls_bound_tokens with_none_authn with_introspection with_par with_par_required with_jar
    with_jar_required with_jar_encryption with_jarm with_jarm_encryption with_dpop
    with_dpop_required with_sender_constrained_tokens_required with_pkce with_pkce_required handler
    mtls_handler validation_run_validations validate_jwks validate_signature_keys
    validate_encryption_keys validate_private_key_jwt_signature_algorithms
    validate_client_secret_jwt_signature_algorithms validate_introspection_client_authn_methods
    validate_user_info_encryption validate_jar_encryption validate_jarm_encryption
    validate_token_binding validate_open_id_profile validate_fapi2_profile validate_configuration
    find_first values write_through split_with_spaces contains_open_id contains_offline_access
    random validate_authorization_code_grant_request new_authorization_code_grant_options
    refresh_token store_grant_session add_refresh_token generate_authorization_code_grant_session
    get_session_by_authorization_code get_authenticated_client_and_session issue_for_session
    handle_authorization_code_grant_token_creation validate_token_binding_is_required
    validate_token_binding_request_with_dpop is_jws is_jwe valid_claims token_id
    handle_token_creation validate_client_credentials_grant_request
    new_client_credentials_grant_options generate_client_credentials_grant_session issue_for_client
    handle_client_credentials_grant_token_creation half_hash_id_token_claim add_hash
    make_signed_id_token encrypt_jwt encrypt_for_client make_id_token
    refresh_token_introspection_info token_introspection_info_by_id jwt_token_introspection_info
    token_introspection_info validate_token_introspection_request introspect new_uuid random_text
    jkt_binding token_type_binding certificate_binding jwt_token_claims make_jwt_token
    make_opaque_token make new_grant_options new_id_token_options new_grant_session is_pkce_valid
    effective_method pkce_validate_pkce hash_base64_url_sha256 jwk_thumbprint validate_dpop_claims
    validate_dpop_jwt validate_dpop validate_tls_pop validate_pop contains_all_scopes
    validate_refresh_token_proof_of_possession delete_expired validate_refresh_token_grant_request
    get_grant_session_by_refresh_token get_authenticated_client_and_grant_session rotate
    update_refresh_token_grant_session renew handle_refresh_token_grant_token_creation
    validate_user_info_request sign_user_info_claims user_info_claims get_user_info_response
    handle_user_info_request
runs = tt
