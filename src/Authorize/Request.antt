-- ===== src/Authorize/Request.antt =====
-- The requests and responses of internal/authorize (model.go and const.go), and what a handler does
-- with the client that it holds.
use goidc.Base.{ℕ, String, none, List, [], ◌∷◌, ◌++◌, is_empty, if◌then◌else◌}
use goidc.Authn.ClientId.{ClientAuthnRequest}
use goidc.Model.Client.{Client, allow_redirect_uri}
use goidc.Model.Params.{AuthorizationParameters}
use goidc.Model.Session.{AuthnSession}
use goidc.Oidc.Context.{Context, State, Run, client_written}
use goidc.Oidc.Effect.{Outcome, ok}

abbrev pub callback_id_length : ℕ
callback_id_length = 20

abbrev pub request_uri_length : ℕ
request_uri_length = 20

abbrev pub authorization_code_length : ℕ
authorization_code_length = 30

abbrev pub authorization_code_lifetime_secs : ℕ
authorization_code_lifetime_secs = 60

pub record AuthorizationRequest : Type 0 where
  pub client_id : String
  pub params : AuthorizationParameters
  pub open params use *

pub record PushedAuthorizationRequest : Type 0 where
  pub params : AuthorizationParameters
  pub open params use *
  pub client_authn : ClientAuthnRequest

pub record PushedAuthorizationResponse : Type 0 where
  pub request_uri : String
  pub expires_in : ℕ

pub record AuthorizationResponse : Type 0 where
  pub response : String
  pub issuer : String
  pub access_token : String
  pub token_type : String
  pub id_token : String
  pub authorization_code : String
  pub state : String
  pub error : String
  pub error_description : String

abbrev pub empty_response : AuthorizationResponse
empty_response = record {
  response = "";
  issuer = "";
  access_token = "";
  token_type = "";
  id_token = "";
  authorization_code = "";
  state = "";
  error = "";
  error_description = "";
}

abbrev pub param : String → String → List (String × String)
param name value = if is_empty value then [] else (name, value) ∷ []

-- authorizationResponse.Parameters
unfoldable pub parameters : AuthorizationResponse → List (String × String)
parameters rp =
    if is_empty rp.response
    then param "iss" rp.issuer
      ++ param "access_token" rp.access_token
      ++ param "token_type" rp.token_type
      ++ param "id_token" rp.id_token
      ++ param "code" rp.authorization_code
      ++ param "state" rp.state
      ++ param "error" rp.error
      ++ param "error_description" rp.error_description
    else ("response", rp.response) ∷ []

-- newAuthnSession, with the UUID that it draws and the time.
unfoldable pub new_authn_session : String → ℕ → AuthorizationParameters → Client → AuthnSession
new_authn_session uuid now params c = record {
  id = uuid;
  callback_id = "";
  policy_id = "";
  expires_at_timestamp = 0;
  created_at_timestamp = now;
  subject = "";
  client_id = c.id;
  granted_scopes = "";
  granted_authorization_details = none;
  authorization_code = "";
  protected_parameters = [];
  store = [];
  additional_token_claims = [];
  additional_id_token_claims = [];
  additional_user_info_claims = [];
  params = params;
  error = none;
}

-- An action of a handler that holds a pointer to a client.
abbrev pub Scoped : Context → Type 0 → Type 0
Scoped ctx A = Client × State ctx → Outcome A × (Client × State ctx)

module _ (ctx : Context) where
  -- An action on the state, and one that may change the client.
  unfoldable pub on_state : {A : Type 0} → Run ctx A → Scoped ctx A
  on_state m cs = let (r, s) = m cs.1 in (r, (cs.0, s))

  unfoldable pub on_client :
      {A : Type 0} → (Client → State ctx → (A × Client) × State ctx) → Scoped ctx A
  on_client m cs = let ((a, c), s) = m cs.0 cs.1 in (ok a, (c, s))

  -- Client.AllowRedirectURI, through the pointer
  unfoldable pub allow : String → Scoped ctx (Unit {0})
  unfolding allow_redirect_uri client_written
  allow redirect_uri cs =
      let c = allow_redirect_uri redirect_uri cs.0 in (ok tt, (c, client_written ctx c cs.1))
