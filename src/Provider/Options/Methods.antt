-- ===== src/Provider/Options/Methods.antt =====
-- The options for client authentication, TLS and introspection (pkg/provider/provider.go).
use goidc.Base.{ℕ, String, true, List, [], ◌∷◌, ◌++◌}
use goidc.Model.Const.ClientAuthn
use goidc.Model.Const.GrantType
use goidc.Provider.Defaults.{ProviderOption, on_config}

unfoldable pub with_basic_secret_authn : ProviderOption
with_basic_secret_authn =
    on_config λ c. record c {
      client_authn_methods = c.client_authn_methods ++ ClientAuthn.secret_basic ∷ [];
    }

unfoldable pub with_secret_post_authn : ProviderOption
with_secret_post_authn =
    on_config λ c. record c {
      client_authn_methods = c.client_authn_methods ++ ClientAuthn.secret_post ∷ [];
    }

-- WithPrivateKeyJWTAuthn
unfoldable pub with_private_key_jwt_authn : ℕ → List String → ProviderOption
with_private_key_jwt_authn secs algorithms = on_config λ c. record c {
  client_authn_methods = c.client_authn_methods ++ ClientAuthn.private_key_jwt ∷ [];
  private_key_jwt_assertion_lifetime_secs = secs;
  private_key_jwt_signature_algorithms = c.private_key_jwt_signature_algorithms ++ algorithms;
}

-- WithClientSecretJWTAuthn, which adds the method client_secret_basic.
unfoldable pub with_client_secret_jwt_authn : ℕ → List String → ProviderOption
with_client_secret_jwt_authn secs algorithms = on_config λ c. record c {
  client_authn_methods = c.client_authn_methods ++ ClientAuthn.secret_basic ∷ [];
  client_secret_jwt_assertion_lifetime_secs = secs;
  client_secret_jwt_signature_algorithms = c.client_secret_jwt_signature_algorithms ++ algorithms;
}

-- WithTLSAuthn
unfoldable pub with_tls_authn : ProviderOption
with_tls_authn =
    on_config
      λ c. record c { client_authn_methods = c.client_authn_methods ++ ClientAuthn.tls ∷ [] }

-- WithSelfSignedTLSAuthn
unfoldable pub with_self_signed_tls_authn : ProviderOption
with_self_signed_tls_authn = on_config λ c. record c {
  client_authn_methods = c.client_authn_methods ++ ClientAuthn.self_signed_tls ∷ [];
}

-- WithMTLS
unfoldable pub with_mtls : String → ProviderOption
with_mtls host = on_config λ c. record c { mtls_is_enabled = true; mtls_host = host }

-- WithTLSBoundTokens
unfoldable pub with_tls_bound_tokens : ProviderOption
with_tls_bound_tokens = on_config λ c. record c { tls_bound_tokens_is_enabled = true }

unfoldable pub with_none_authn : ProviderOption
with_none_authn =
    on_config
      λ c. record c { client_authn_methods = c.client_authn_methods ++ ClientAuthn.none_authn ∷ [] }

unfoldable pub with_introspection : List String → ProviderOption
with_introspection methods = on_config λ c. record c {
  introspection_is_enabled = true;
  introspection_client_authn_methods = methods;
  grant_types = c.grant_types ++ GrantType.introspection ∷ [];
}
