-- ===== src/Provider/Options/Requests.antt =====
-- The options for authorization requests, their responses and proofs (pkg/provider/provider.go).
use goidc.Base.{ℕ, String, true, List, [], ◌∷◌, ◌++◌, contains, if◌then◌else◌}
use goidc.Model.Const.ResponseMode
use goidc.Provider.Defaults.{ProviderOption, on_config}

-- A list of key IDs with the default one, which is put at the end if it is missing.
abbrev pub with_id : String → List String → List String
with_id default key_ids = if contains key_ids default then key_ids else key_ids ++ default ∷ []

-- WithPAR
unfoldable pub with_par : ℕ → ProviderOption
with_par secs = on_config λ c. record c { par_lifetime_secs = secs; par_is_enabled = true }

-- WithPARRequired: the option that `WithPAR` returns is not applied.
unfoldable pub with_par_required : ℕ → ProviderOption
with_par_required secs = on_config λ c. record c { par_is_required = true }

-- WithJAR
unfoldable pub with_jar : ℕ → List String → ProviderOption
with_jar secs algorithms = on_config λ c. record c {
  jar_is_enabled = true;
  jar_lifetime_secs = secs;
  jar_signature_algorithms = c.jar_signature_algorithms ++ algorithms;
}

-- WithJARRequired: the option that `WithJAR` returns is not applied.
unfoldable pub with_jar_required : ℕ → List String → ProviderOption
with_jar_required secs algorithms = on_config λ c. record c { jar_is_required = true }

-- WithJAREncryption
unfoldable pub with_jar_encryption : List String → List String → ProviderOption
with_jar_encryption key_ids content_algorithms = on_config λ c. record c {
  jar_encryption_is_enabled = true;
  jar_key_encryption_ids = key_ids;
  jar_content_encryption_algorithms = content_algorithms;
}

-- WithJARM
unfoldable pub with_jarm : ℕ → String → List String → ProviderOption
with_jarm secs default_key_id key_ids = on_config λ c. record c {
  jarm_is_enabled = true;
  response_modes =
      c.response_modes
      ++ ResponseMode.jwt ∷ ResponseMode.query_jwt ∷ ResponseMode.fragment_jwt
        ∷ ResponseMode.form_post_jwt ∷ [];
  jarm_lifetime_secs = secs;
  default_jarm_signature_key_id = default_key_id;
  jarm_signature_key_ids = with_id default_key_id key_ids;
}

-- WithJARMEncryption
unfoldable pub with_jarm_encryption : List String → List String → ProviderOption
with_jarm_encryption key_algorithms content_algorithms = on_config λ c. record c {
  jarm_encryption_is_enabled = true;
  jarm_key_encryption_algorithms = c.jarm_key_encryption_algorithms ++ key_algorithms;
  jarm_content_encryption_algorithms = c.jarm_content_encryption_algorithms ++ content_algorithms;
}

-- WithDPoP
unfoldable pub with_dpop : ℕ → List String → ProviderOption
with_dpop secs algorithms = on_config λ c. record c {
  dpop_is_enabled = true;
  dpop_lifetime_secs = secs;
  dpop_signature_algorithms = c.dpop_signature_algorithms ++ algorithms;
}

-- WithDPoPRequired: the option that `WithDPoP` returns is not applied.
unfoldable pub with_dpop_required : ℕ → List String → ProviderOption
with_dpop_required secs algorithms = on_config λ c. record c { dpop_is_required = true }

unfoldable pub with_sender_constrained_tokens_required : ProviderOption
with_sender_constrained_tokens_required =
    on_config λ c. record c { sender_constrained_token_is_required = true }

-- WithPKCE
unfoldable pub with_pkce : List String → ProviderOption
with_pkce methods =
    on_config λ c. record c { code_challenge_methods = methods; pkce_is_enabled = true }

-- WithPKCERequired: the option that `WithPKCE` returns is not applied.
unfoldable pub with_pkce_required : List String → ProviderOption
with_pkce_required methods = on_config λ c. record c { pkce_is_required = true }
