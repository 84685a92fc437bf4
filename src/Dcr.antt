-- ===== src/Dcr.antt =====
-- Registration, update, reading and deletion of a client (internal/dcr/util.go).
pub mod Request
pub mod Client
pub mod Validation
pub mod Created
pub mod Access
pub mod RoundTrip
use goidc.Base.{String, Option, none, some, if◌then◌else◌}
use goidc.Model.Client.{ClientMetaInfo}
use goidc.Oidc.Context.{Context, State, Run, save_client, delete_client, or_internal_error}
use goidc.Oidc.Effect.{Outcome, pure, fault, ◌>>=◌, ◌>>◌}
use Request.{DynamicClientRequest, DynamicClientResponse}
use Client.{
  client_id, registration_access_token, set_defaults, new_client, registration_uri,
  protected_client,
}
use Validation.{validate_dynamic_client_request}

module _ (ctx : Context) where
  abbrev applied :
      Option (goidc.Oidc.Config.Request → ClientMetaInfo → ClientMetaInfo)
      → ClientMetaInfo
      → ClientMetaInfo
  applied none meta = meta
  applied (some plugin) meta = plugin ctx.request meta

  -- Context.ExecuteDCRPlugin
  unfoldable pub execute_dcr_plugin : ClientMetaInfo → ClientMetaInfo
  execute_dcr_plugin meta = applied ctx.dcr_plugin meta

  -- The part that `create` and `update` share: the plugin runs between two validations.
  abbrev pub with_plugin : DynamicClientRequest → DynamicClientRequest
  with_plugin req = record req { meta = execute_dcr_plugin req.meta }

  abbrev pub store_client : DynamicClientRequest → Run ctx (Unit {0})
  store_client req s = or_internal_error ctx (save_client ctx (new_client ctx req) s)

  -- The end of `create` and of `update`, which differ in their response.
  unfoldable pub register :
      (DynamicClientRequest → DynamicClientResponse)
      → DynamicClientRequest
      → Run ctx DynamicClientResponse
  unfolding validate_dynamic_client_request execute_dcr_plugin new_client save_client fault pure
      ◌>>=◌
  register response dynamic_client = do
    fault (validate_dynamic_client_request ctx dynamic_client)
    let extended = with_plugin dynamic_client
    fault (validate_dynamic_client_request ctx extended)
    store_client extended
    pure (response extended)

  abbrev pub created_response : DynamicClientRequest → DynamicClientResponse
  created_response req = record {
    id = req.id;
    registration_uri = registration_uri ctx req.id;
    registration_access_token = req.registration_access_token;
    secret = req.secret;
    meta = req.meta;
  }

  -- setCreationDefaults
  unfoldable pub set_creation_defaults : DynamicClientRequest → Run ctx DynamicClientRequest
  unfolding client_id registration_access_token set_defaults ◌>>=◌
  set_creation_defaults req = do
    id ← client_id ctx
    token ← registration_access_token ctx
    set_defaults ctx (record req { id = id; registration_access_token = token })

  unfoldable pub create : DynamicClientRequest → Run ctx DynamicClientResponse
  unfolding set_creation_defaults register registration_uri ◌>>=◌
  create req = do
    dynamic_client ← set_creation_defaults req
    register created_response dynamic_client

  -- The token is a part of the response if it was rotated.
  abbrev pub updated_response : DynamicClientRequest → DynamicClientResponse
  updated_response req = record {
    id = req.id;
    registration_uri = registration_uri ctx req.id;
    secret = req.secret;
    meta = req.meta;
    registration_access_token =
        if ctx.should_rotate_registration_tokens then req.registration_access_token else "";
  }

  abbrev pub rotated_token : DynamicClientRequest → Run ctx DynamicClientRequest
  rotated_token req =
      if ctx.should_rotate_registration_tokens
      then (registration_access_token ctx >>= λ token.
          pure (record req { registration_access_token = token }))
      else pure req

  -- setUpdateDefaults
  unfoldable pub set_update_defaults :
      goidc.Model.Client.Client → DynamicClientRequest → Run ctx DynamicClientRequest
  unfolding registration_access_token set_defaults ◌>>=◌ pure
  set_update_defaults c req = do
    rotated ← rotated_token (record req { id = c.id })
    set_defaults ctx rotated

  unfoldable pub update : DynamicClientRequest → Run ctx DynamicClientResponse
  unfolding protected_client set_update_defaults register registration_uri ◌>>=◌
  update req = do
    c ← protected_client ctx req
    dynamic_client ← set_update_defaults c req
    register updated_response dynamic_client

  abbrev pub read_response : goidc.Model.Client.Client → DynamicClientResponse
  read_response c = record {
    id = c.id;
    registration_uri = registration_uri ctx c.id;
    secret = "";
    registration_access_token = "";
    meta = c.meta;
  }

  unfoldable pub client : DynamicClientRequest → Run ctx DynamicClientResponse
  unfolding protected_client registration_uri pure ◌>>=◌
  client req = do c ← protected_client ctx req; pure (read_response c)

  unfoldable pub remove : DynamicClientRequest → Run ctx (Unit {0})
  unfolding protected_client delete_client ◌>>=◌
  remove req = do
    c ← protected_client ctx req
    λ s. or_internal_error ctx (delete_client ctx req.id s)
