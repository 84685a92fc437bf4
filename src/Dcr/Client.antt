-- ===== src/Dcr/Client.antt =====
-- The default values of a registration, the client that it makes, and the access to a client that
-- is registered (internal/dcr/client.go, internal/dcr/const.go).
use goidc.Base.{
  ℕ, String, Bool, Option, none, some, [], ◌∷◌, ◌<>◌, ◌==◌, ◌&&◌, ◌||◌, not, is_empty,
  if◌then◌else◌,
}
use goidc.Dcr.Request.{DynamicClientRequest}
use goidc.Model.Client.{Client, ClientMetaInfo}
use goidc.Model.Const.ClientAuthn
use goidc.Model.Const.Endpoint
use goidc.Model.Const.ResponseType
use goidc.Oidc.Context.{Context, Run, client_by_id}
use goidc.Oidc.Effect.{Error, Outcome, ok, err, base_error, pure, fault, check, ◌>>=◌, ◌>>◌}
use goidc.Oidc.ErrorCode
use goidc.Storage.{Fetched, found, failed}
use goidc.Token.Make.{random_text, value_or_internal_error}

abbrev pub dynamic_client_id_length : ℕ
dynamic_client_id_length = 30

abbrev pub client_secret_length : ℕ
client_secret_length = 64

abbrev pub registration_access_token_length : ℕ
registration_access_token_length = 50

-- jose.A128CBC_HS256
abbrev pub a128cbc_hs256 : String
a128cbc_hs256 = "A128CBC-HS256"

-- The content encryption algorithm of a pair, which is set where only that of the key is.
abbrev pub content_encryption_or_default : String → String → String
content_encryption_or_default key_algorithm content_algorithm =
    if not (is_empty key_algorithm) && is_empty content_algorithm
    then a128cbc_hs256
    else content_algorithm

abbrev or_nil_default {ℓ} : {A : Type ℓ} → A → Option A → Option A
or_nil_default default none = some default
or_nil_default default (some a) = some a

unfoldable pub with_default_method : ClientMetaInfo → ClientMetaInfo
with_default_method meta =
    if is_empty meta.authn_method
    then record meta { authn_method = ClientAuthn.secret_basic }
    else meta

-- The defaults of `setDefaults` after the secret.
unfoldable pub with_defaults : ClientMetaInfo → ClientMetaInfo
with_defaults meta = record meta {
  response_types = or_nil_default (ResponseType.code ∷ []) meta.response_types;
  id_token_content_encryption_algorithm =
      content_encryption_or_default meta.id_token_key_encryption_algorithm
        meta.id_token_content_encryption_algorithm;
  user_info_content_encryption_algorithm =
      content_encryption_or_default meta.user_info_key_encryption_algorithm
        meta.user_info_content_encryption_algorithm;
  jarm_content_encryption_algorithm =
      content_encryption_or_default meta.jarm_key_encryption_algorithm
        meta.jarm_content_encryption_algorithm;
  jar_content_encryption_algorithm =
      content_encryption_or_default meta.jar_key_encryption_algorithm
        meta.jar_content_encryption_algorithm;
  custom_attributes = or_nil_default [] meta.custom_attributes;
}

-- The methods for which a secret is made.
unfoldable pub has_secret : String → Bool
has_secret method =
    method == ClientAuthn.secret_post
    || (method == ClientAuthn.secret_basic || method == ClientAuthn.secret_jwt)

module _ (ctx : Context) where
  open ctx use {library}

  -- A random text, an error of which is an internal error.
  abbrev pub random_or_error : ℕ → Run ctx String
  random_or_error length = do text ← random_text ctx length; fault (value_or_internal_error text)

  unfoldable pub client_id : Run ctx String
  unfolding random_text ◌>>=◌ fault pure
  client_id = do id ← random_or_error dynamic_client_id_length; pure ("dc-" <> id)

  unfoldable pub client_secret : Run ctx String
  unfolding random_text ◌>>=◌ fault
  client_secret = random_or_error client_secret_length

  unfoldable pub registration_access_token : Run ctx String
  unfolding random_text ◌>>=◌ fault
  registration_access_token = random_or_error registration_access_token_length

  -- A secret is made only for the methods that use one.
  abbrev pub secret_or_given : String → String → Run ctx String
  secret_or_given method given = if has_secret method then client_secret else pure given

  -- setDefaults
  unfoldable pub set_defaults : DynamicClientRequest → Run ctx DynamicClientRequest
  unfolding with_default_method with_defaults has_secret client_secret ◌>>=◌ pure
  set_defaults req = do
    let named = with_default_method req.meta
    secret ← secret_or_given named.authn_method req.secret
    pure (record req { secret = secret; meta = with_defaults named })

  -- newClient
  unfoldable pub new_client : DynamicClientRequest → Client
  new_client req = record {
    id = req.id;
    secret = if req.authn_method == ClientAuthn.secret_jwt then req.secret else "";
    hashed_secret =
        if req.authn_method == ClientAuthn.secret_post
          || req.authn_method == ClientAuthn.secret_basic
        then library.generate_from_password req.secret
        else "";
    hashed_registration_access_token = library.generate_from_password req.registration_access_token;
    meta = req.meta;
  }

  unfoldable pub registration_uri : String → String
  registration_uri id = ctx.host <> (ctx.path_prefix <> (Endpoint.dynamic_client <> ("/" <> id)))

  -- Client.IsRegistrationAccessTokenValid
  unfoldable pub is_registration_access_token_valid : Client → String → Bool
  is_registration_access_token_valid c token =
      library.compare_hash_and_password c.hashed_registration_access_token token

  abbrev pub fetched_client : Fetched Client → Outcome Client
  fetched_client (failed message) = err (base_error ErrorCode.invalid_request message)
  fetched_client (found c) = ok c

  -- ctx.Client, an error of which is one of the request.
  abbrev pub read_client : String → Run ctx Client
  read_client id s = (fetched_client (client_by_id ctx id s), s)

  -- The two tests of `protectedClient`.
  abbrev pub id_error : DynamicClientRequest → Option Error
  id_error req =
      if is_empty req.id
      then some (base_error ErrorCode.invalid_request "invalid client_id")
      else none

  abbrev pub token_error : Client → DynamicClientRequest → Option Error
  token_error c req =
      if is_empty req.registration_access_token
        || not (is_registration_access_token_valid c req.registration_access_token)
      then some (base_error ErrorCode.access_denied "invalid token")
      else none

  unfoldable pub protected_client : DynamicClientRequest → Run ctx Client
  unfolding client_by_id is_registration_access_token_valid check pure ◌>>=◌
  protected_client req = do
    check (id_error req)
    c ← read_client req.id
    check (token_error c req)
    pure c
