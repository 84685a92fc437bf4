-- ===== src/Tests/Registration.antt =====
-- The registration of clients and the making of providers at sample configurations.
use goidc.Base.{eq_refl, String, true, false, none, List, [], ◌∷◌, ◌≡◌, ◌≢◌, refl}
use goidc.Dcr.{create, update, client}
use goidc.Dcr.Access.{IsUpdated, update-ok, IsShown, remove-ok}
use goidc.Dcr.Created.{IsCreated, create-ok}
use goidc.Dcr.Request.{DynamicClientRequest, DynamicClientResponse}
use goidc.Dcr.RoundTrip.{client-create, presenting, without_secrets}
use goidc.Dcr.Validation.Registrable.{IsRegistrable, validated-IsRegistrable}
use goidc.Discovery.{well_known}
use goidc.Discovery.Document.{OpenIdConfiguration}
use goidc.Model.Client.{Client}
use goidc.Oidc.Config.{Configuration}
use goidc.Oidc.Context.{Context, State, delete_client}
use goidc.Oidc.Effect.{Outcome, ok, err, panic, crash}
use goidc.Oidc.Keys.{id_token_signature_key, user_info_signature_key, jarm_signature_key}
use goidc.Oidc.Library.{Jwk, Key, Library}
use goidc.Provider.{new}
use goidc.Provider.Defaults.{Provider, ProviderOption, default_provider}
use goidc.Provider.Options.{
  with_profile_fapi2, with_issuer_response_parameter, with_dcr, with_implicit_grant,
}
use goidc.Provider.Options.Requests.{
  with_par, with_par_required, with_pkce, with_pkce_required, with_jarm,
}
use goidc.Provider.Served.{
  provider_or, served, IsSigningKey, new-IsSound, signing-keys-found, well_known-ok, new-IsFapi2,
  fapi2-registers_none,
}
use goidc.Provider.Sound.{IsOption, IsSound}
use goidc.Provider.Validation.Valid.{IsFapi2}
use goidc.StrUtil.Random.Bounds.{IsRandom, random-IsRandom}
use goidc.Tests.Runs.{runs}
use goidc.Tests.Sample.{config, request, library, meta, shop}
use goidc.Token.AuthzCode.Replay.{in_memory}

random-IsRandom_example : IsRandom 3 "aaa"
unfolding runs
random-IsRandom_example = random-IsRandom library.rand_int 3 0 "aaa" 3 refl

-- A server that has the implicit grant.
abbrev open_config : Configuration
open_config = record config { grant_types = "implicit" ∷ "authorization_code" ∷ [] }

abbrev open_ctx : Context
open_ctx = in_memory open_config request library 100

abbrev start : State open_ctx
start = record {
  static_clients = [];
  clients = [];
  authn_sessions = [];
  grant_sessions = [];
  draws = 0;
  responses = [];
}

abbrev registration : DynamicClientRequest
registration = record {
  id = "";
  initial_access_token = "";
  registration_access_token = "";
  secret = "";
  meta = record meta { grant_types = "authorization_code" ∷ [] };
}

abbrev created : Outcome DynamicClientResponse × State open_ctx
created = create open_ctx registration start

abbrev no_response : DynamicClientResponse
no_response = record {
  id = "";
  secret = "";
  registration_access_token = "";
  registration_uri = "";
  meta = meta;
}

abbrev response_or : Outcome DynamicClientResponse → DynamicClientResponse
response_or (ok resp) = resp
response_or (err e) = no_response
response_or panic = no_response
response_or crash = no_response

abbrev response : DynamicClientResponse
response = response_or created.0

create-ok_example : IsCreated open_ctx registration start created.1 response
unfolding runs
create-ok_example = create-ok open_ctx registration start created.1 response refl

client-create_example :
    client open_ctx (presenting response registration) created.1
    ≡ (ok (without_secrets response), created.1)
unfolding runs
client-create_example =
    client-create open_config request library 100 registration start created.1 response
      (λ password. eq_refl password) refl refl

validated-IsRegistrable_example : IsRegistrable open_ctx registration
unfolding runs
validated-IsRegistrable_example = validated-IsRegistrable open_ctx registration refl

-- The request that presents what was answered, with another name of the client.
abbrev renaming : DynamicClientRequest
renaming = record (presenting response registration) {
  meta = record registration.meta { name = "store" };
}

abbrev updated : Outcome DynamicClientResponse × State open_ctx
updated = update open_ctx renaming created.1

update-ok_example : IsUpdated open_ctx renaming created.1 updated.1 (response_or updated.0)
unfolding runs
update-ok_example = update-ok open_ctx renaming created.1 updated.1 (response_or updated.0) refl

-- The state in which the client is deleted again.
abbrev start_after : State open_ctx
start_after = record created.1 { clients = [] }

remove-ok_example :
    (c : Client) × IsShown open_ctx renaming c created.1
    × (delete_client open_ctx renaming.id created.1 ≡ (none, start_after))
unfolding runs
remove-ok_example = remove-ok open_ctx renaming created.1 start_after refl

abbrev signing_key : Jwk
signing_key = record {
  key_id = "key";
  algorithm = "RS256";
  usage = "sig";
  key = Key.rsa 0;
  certificate_thumbprint_sha256 = "";
  certificate_thumbprint_sha1 = "";
}

-- The library finds the keys of any ID.
abbrev lax_library : Library
lax_library = record library { keys_by_id = λ keys id. keys }

abbrev issuer : String
issuer = "https://server.example"

abbrev jarm_options : List ProviderOption
jarm_options = with_jarm 60 "key" [] ∷ with_implicit_grant ∷ []

abbrev jarm_server : Provider
jarm_server =
    provider_or (default_provider issuer (signing_key ∷ []) "key")
      (new lax_library issuer (signing_key ∷ []) "key" jarm_options)

new-IsSound_example : IsSound jarm_server
unfolding runs
new-IsSound_example =
    new-IsSound lax_library issuer (signing_key ∷ []) "key" jarm_options jarm_server
      (IsOption.jarm 60 "key" [], (IsOption.implicit_grant, tt)) refl

signing-keys-found_example :
    IsSigningKey (id_token_signature_key (served jarm_server lax_library request 100) shop)
    × IsSigningKey (user_info_signature_key (served jarm_server lax_library request 100) shop)
    × (jarm_server.jarm_is_enabled ≡ true
        → IsSigningKey (jarm_signature_key (served jarm_server lax_library request 100) shop))
unfolding runs
signing-keys-found_example =
    signing-keys-found lax_library issuer (signing_key ∷ []) "key" jarm_options jarm_server request
      100 shop (IsOption.jarm 60 "key" [], (IsOption.implicit_grant, tt)) refl

well_known-ok_example :
    (published : OpenIdConfiguration) × (well_known (served jarm_server lax_library request 100)
      ≡ ok published)
unfolding runs
well_known-ok_example =
    well_known-ok lax_library issuer (signing_key ∷ []) "key" jarm_options jarm_server request 100
      refl

abbrev fapi2_options : List ProviderOption
fapi2_options =
    with_profile_fapi2
    ∷ with_par 60
    ∷ with_par_required 60
    ∷ with_pkce ("S256" ∷ [])
    ∷ with_pkce_required ("S256" ∷ [])
    ∷ with_issuer_response_parameter
    ∷ with_dcr none false
    ∷ []

abbrev fapi2_server : Provider
fapi2_server =
    provider_or (default_provider issuer (signing_key ∷ []) "key")
      (new lax_library issuer (signing_key ∷ []) "key" fapi2_options)

new-IsFapi2_example : IsFapi2 lax_library fapi2_server.config
unfolding runs
new-IsFapi2_example =
    new-IsFapi2 lax_library issuer (signing_key ∷ []) "key" fapi2_options fapi2_server refl refl

abbrev fapi2_start : State (served fapi2_server lax_library request 100)
unfolding runs
fapi2_start = record {
  static_clients = [];
  clients = [];
  authn_sessions = [];
  grant_sessions = [];
  draws = 0;
  responses = [];
}

fapi2-registers_none_example :
    (create (served fapi2_server lax_library request 100) registration fapi2_start).0
    ≢ ok no_response
unfolding runs
fapi2-registers_none_example =
    fapi2-registers_none lax_library issuer (signing_key ∷ []) "key" fapi2_options fapi2_server
      request 100 registration fapi2_start no_response refl refl
