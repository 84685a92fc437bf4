-- ===== src/Provider/Sound.antt =====
-- The options that the package offers, and what a provider keeps whatever options it is given
-- (pkg/provider/provider.go).
use goidc.Base.{
  ℕ, String, Bool, true, false, Option, List, [], ◌∷◌, ◌++◌, ◌==◌, ◌≡◌, refl, arith, eq_refl, All,
  any, contains, nat_eq, Bool-cases, inl, inr, if◌then◌else◌,
}
use goidc.Model.Client.{Client, ClientMetaInfo, Scope, new_scope}
use goidc.Model.Session.{TokenOptions}
use goidc.Oidc.Config.{AuthnPolicy, Request}
use goidc.Oidc.Effect.{Error}
use goidc.Oidc.Library.{Jwk}
use goidc.Provider.{apply_options}
use goidc.Provider.Defaults.{Provider, ProviderOption, default_provider, scope_open_id}
use goidc.Provider.Options.{
  told_apart, with_path_prefix, with_user_claims, with_user_info_signature_key_ids,
  with_id_token_lifetime, with_user_info_encryption, with_dcr, with_refresh_token_grant,
  with_open_id_scope_required, with_token_options, with_implicit_grant, with_scopes,
  with_issuer_response_parameter, with_claims_parameter, with_authorization_details, with_acrs,
  with_display_values, with_claim_types, with_authentication_session_timeout, with_profile_fapi2,
  with_storage, with_static_client, with_policy, with_authorize_error_plugin,
}
use goidc.Provider.Options.Requests.{
  with_id, with_par, with_par_required, with_jar, with_jar_required, with_jar_encryption, with_jarm,
  with_jarm_encryption, with_dpop, with_dpop_required, with_sender_constrained_tokens_required,
  with_pkce, with_pkce_required,
}
use goidc.Provider.Options.Methods.{
  with_basic_secret_authn, with_secret_post_authn, with_private_key_jwt_authn,
  with_client_secret_jwt_authn, with_tls_authn, with_self_signed_tls_authn, with_mtls,
  with_tls_bound_tokens, with_none_authn, with_introspection,
}
use goidc.Storage.{ClientManager, AuthnSessionManager, GrantSessionManager, Fetched, found, failed}
use goidc.Token.Model.{refresh_token_length}

-- The options of the package, one constructor for each.
pub data IsOption : ProviderOption → Type 1 where
  path_prefix : (text : String) → IsOption (with_path_prefix text)
  user_claims : (texts : List String) → IsOption (with_user_claims texts)
  user_info_signature_key_ids :
      (texts : List String) → IsOption (with_user_info_signature_key_ids texts)
  id_token_lifetime : (secs : ℕ) → IsOption (with_id_token_lifetime secs)
  user_info_encryption :
      (texts : List String) (texts_2 : List String)
      → IsOption (with_user_info_encryption texts texts_2)
  dcr :
      (f : Option (Request → ClientMetaInfo → ClientMetaInfo)) (flag : Bool)
      → IsOption (with_dcr f flag)
  refresh_token_grant : (secs : ℕ) (flag : Bool) → IsOption (with_refresh_token_grant secs flag)
  open_id_scope_required : IsOption with_open_id_scope_required
  token_options : (f : Client → String → Fetched TokenOptions) → IsOption (with_token_options f)
  implicit_grant : IsOption with_implicit_grant
  scopes : (available : List Scope) → IsOption (with_scopes available)
  issuer_response_parameter : IsOption with_issuer_response_parameter
  claims_parameter : IsOption with_claims_parameter
  authorization_details : (texts : List String) → IsOption (with_authorization_details texts)
  acrs : (texts : List String) → IsOption (with_acrs texts)
  display_values : (texts : List String) → IsOption (with_display_values texts)
  claim_types : (texts : List String) → IsOption (with_claim_types texts)
  authentication_session_timeout : (secs : ℕ) → IsOption (with_authentication_session_timeout secs)
  profile_fapi2 : IsOption with_profile_fapi2
  storage :
      (clients : ClientManager) (authn_sessions : AuthnSessionManager)
      (grant_sessions : GrantSessionManager)
      → IsOption (with_storage clients authn_sessions grant_sessions)
  static_client : (client : Client) → IsOption (with_static_client client)
  policy : (chosen : AuthnPolicy) → IsOption (with_policy chosen)
  authorize_error_plugin :
      (f : Option (Request → Error → Option String)) → IsOption (with_authorize_error_plugin f)
  par : (secs : ℕ) → IsOption (with_par secs)
  par_required : (secs : ℕ) → IsOption (with_par_required secs)
  jar : (secs : ℕ) (texts : List String) → IsOption (with_jar secs texts)
  jar_required : (secs : ℕ) (texts : List String) → IsOption (with_jar_required secs texts)
  jar_encryption :
      (texts : List String) (texts_2 : List String) → IsOption (with_jar_encryption texts texts_2)
  jarm : (secs : ℕ) (text : String) (texts : List String) → IsOption (with_jarm secs text texts)
  jarm_encryption :
      (texts : List String) (texts_2 : List String) → IsOption (with_jarm_encryption texts texts_2)
  dpop : (secs : ℕ) (texts : List String) → IsOption (with_dpop secs texts)
  dpop_required : (secs : ℕ) (texts : List String) → IsOption (with_dpop_required secs texts)
  sender_constrained_tokens_required : IsOption with_sender_constrained_tokens_required
  pkce : (texts : List String) → IsOption (with_pkce texts)
  pkce_required : (texts : List String) → IsOption (with_pkce_required texts)
  basic_secret_authn : IsOption with_basic_secret_authn
  secret_post_authn : IsOption with_secret_post_authn
  private_key_jwt_authn :
      (secs : ℕ) (texts : List String) → IsOption (with_private_key_jwt_authn secs texts)
  client_secret_jwt_authn :
      (secs : ℕ) (texts : List String) → IsOption (with_client_secret_jwt_authn secs texts)
  tls_authn : IsOption with_tls_authn
  self_signed_tls_authn : IsOption with_self_signed_tls_authn
  mtls : (text : String) → IsOption (with_mtls text)
  tls_bound_tokens : IsOption with_tls_bound_tokens
  none_authn : IsOption with_none_authn
  introspection : (texts : List String) → IsOption (with_introspection texts)

-- The scope "openid" is there, the default keys are among those for their use, and no opaque token
-- has the length of a refresh token.
abbrev pub IsSound : Provider → Type 0
IsSound p =
    (any (λ scope. scope.id == "openid") p.scopes ≡ true)
    × (contains p.user_info_signature_key_ids p.default_user_info_signature_key_id ≡ true)
    × (p.jarm_is_enabled ≡ true
        → contains p.jarm_signature_key_ids p.default_jarm_signature_key_id ≡ true)
    × ((c : Client) (requested : String) (o : TokenOptions)
        → p.token_options c requested ≡ found o
        → nat_eq o.opaque_token_length refresh_token_length ≡ false)

contains-++ : (xs : List String) (s : String) → contains (xs ++ s ∷ []) s ≡ true
contains-++ [] s = ground (arith, eq_refl s)
contains-++ (x ∷ xs) s = ground (arith, contains-++ xs s)

contains-with_id : (s : String) (xs : List String) → contains (with_id s xs) s ≡ true
contains-with_id s xs = elim (Bool-cases (contains xs s)) [
  | inl e ↦ rw e e
  | inr e ↦ rw e (contains-++ xs s)
]

any-++ : (xs : List Scope) → any (λ x. x.id == "openid") (xs ++ scope_open_id ∷ []) ≡ true
unfolding new_scope
any-++ [] = refl
any-++ (x ∷ xs) = ground (arith, any-++ xs)

told_apart-length :
    (f : Fetched TokenOptions) (o : TokenOptions)
    → told_apart f ≡ found o
    → nat_eq o.opaque_token_length refresh_token_length ≡ false
told_apart-length (failed e) o h = cc
told_apart-length (found p) o h = ground arith

scopes-open_id :
    (available : List Scope)
    → any
        (λ x. x.id == "openid")
        (if any (λ scope. scope.id == scope_open_id.id) available
          then available
          else available ++ scope_open_id ∷ [])
      ≡ true
unfolding new_scope
scopes-open_id available =
    elim (Bool-cases (any (λ scope. scope.id == scope_open_id.id) available)) [
      | inl e ↦ rw e e
      | inr e ↦ rw e (any-++ available)
    ]

-- Every option keeps a provider sound.
option-IsSound : (o : ProviderOption) → IsOption o → (p : Provider) → IsSound p → IsSound (o p)
unfolding with_path_prefix with_user_claims with_user_info_signature_key_ids with_id_token_lifetime
    with_user_info_encryption with_dcr with_refresh_token_grant with_open_id_scope_required
    with_token_options with_implicit_grant with_scopes with_issuer_response_parameter
    with_claims_parameter with_authorization_details with_acrs with_display_values with_claim_types
    with_authentication_session_timeout with_profile_fapi2 with_storage with_static_client
    with_policy with_authorize_error_plugin with_par with_par_required with_jar with_jar_required
    with_jar_encryption with_jarm with_jarm_encryption with_dpop with_dpop_required
    with_sender_constrained_tokens_required with_pkce with_pkce_required with_basic_secret_authn
    with_secret_post_authn with_private_key_jwt_authn with_client_secret_jwt_authn with_tls_authn
    with_self_signed_tls_authn with_mtls with_tls_bound_tokens with_none_authn with_introspection
option-IsSound o (IsOption.path_prefix text) p h = h
option-IsSound o (IsOption.user_claims texts) p h = h
option-IsSound o (IsOption.user_info_signature_key_ids texts) p h =
    (h.0, contains-with_id p.default_user_info_signature_key_id texts, h.2, h.3)
option-IsSound o (IsOption.id_token_lifetime secs) p h = h
option-IsSound o (IsOption.user_info_encryption texts texts_2) p h = h
option-IsSound o (IsOption.dcr f flag) p h = h
option-IsSound o (IsOption.refresh_token_grant secs flag) p h = h
option-IsSound o IsOption.open_id_scope_required p h = h
option-IsSound o (IsOption.token_options f) p h =
    (h.0, h.1, h.2, λ c s o e. told_apart-length (f c s) o e)
option-IsSound o IsOption.implicit_grant p h = h
option-IsSound o (IsOption.scopes available) p h = (scopes-open_id available, h.1, h.2, h.3)
option-IsSound o IsOption.issuer_response_parameter p h = h
option-IsSound o IsOption.claims_parameter p h = h
option-IsSound o (IsOption.authorization_details texts) p h = h
option-IsSound o (IsOption.acrs texts) p h = h
option-IsSound o (IsOption.display_values texts) p h = h
option-IsSound o (IsOption.claim_types texts) p h = h
option-IsSound o (IsOption.authentication_session_timeout secs) p h = h
option-IsSound o IsOption.profile_fapi2 p h = h
option-IsSound o (IsOption.storage clients authn_sessions grant_sessions) p h = h
option-IsSound o (IsOption.static_client client) p h = h
option-IsSound o (IsOption.policy chosen) p h = h
option-IsSound o (IsOption.authorize_error_plugin f) p h = h
option-IsSound o (IsOption.par secs) p h = h
option-IsSound o (IsOption.par_required secs) p h = h
option-IsSound o (IsOption.jar secs texts) p h = h
option-IsSound o (IsOption.jar_required secs texts) p h = h
option-IsSound o (IsOption.jar_encryption texts texts_2) p h = h
option-IsSound o (IsOption.jarm secs text texts) p h =
    (h.0, h.1, λ e. contains-with_id text texts, h.3)
option-IsSound o (IsOption.jarm_encryption texts texts_2) p h = h
option-IsSound o (IsOption.dpop secs texts) p h = h
option-IsSound o (IsOption.dpop_required secs texts) p h = h
option-IsSound o IsOption.sender_constrained_tokens_required p h = h
option-IsSound o (IsOption.pkce texts) p h = h
option-IsSound o (IsOption.pkce_required texts) p h = h
option-IsSound o IsOption.basic_secret_authn p h = h
option-IsSound o IsOption.secret_post_authn p h = h
option-IsSound o (IsOption.private_key_jwt_authn secs texts) p h = h
option-IsSound o (IsOption.client_secret_jwt_authn secs texts) p h = h
option-IsSound o IsOption.tls_authn p h = h
option-IsSound o IsOption.self_signed_tls_authn p h = h
option-IsSound o (IsOption.mtls text) p h = h
option-IsSound o IsOption.tls_bound_tokens p h = h
option-IsSound o IsOption.none_authn p h = h
option-IsSound o (IsOption.introspection texts) p h = h

options-IsSound :
    (opts : List ProviderOption)
    → All IsOption opts
    → (p : Provider) → IsSound p
    → IsSound (apply_options opts p)
options-IsSound [] a p h = h
options-IsSound (o ∷ opts) a p h = options-IsSound opts a.1 (o p) (option-IsSound o a.0 p h)

default-IsSound :
    (issuer : String) (keys : List Jwk) (id : String) → IsSound (default_provider issuer keys id)
unfolding default_provider
default-IsSound issuer keys id =
    (refl, ground (arith, eq_refl id), λ e. cc, λ c requested o e. ground arith)

-- Whatever options of the package a provider is given, it is sound.
pub configured-IsSound :
    (issuer : String) (keys : List Jwk) (id : String) (opts : List ProviderOption)
    → All IsOption opts
    → IsSound (apply_options opts (default_provider issuer keys id))
configured-IsSound issuer keys id opts a =
    options-IsSound opts a (default_provider issuer keys id) (default-IsSound issuer keys id)
