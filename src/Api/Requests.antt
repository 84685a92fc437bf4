-- ===== src/Api/Requests.antt =====
-- What handlers read from the form and the query of a request: newTokenRequest and
-- newTokenIntrospectionRequest of internal/token/model.go, newAuthorizationRequest and
-- newPushedAuthorizationRequest of internal/authorize/model.go. Of a parameter that is repeated, the
-- first value is read.
use goidc.Base.{String, Option, none, some, List, is_empty, if◌then◌else◌}
use goidc.Authn.ClientId.{new_client_authn_request}
use goidc.Authorize.Request.{AuthorizationRequest, PushedAuthorizationRequest}
use goidc.Base.Dict.{lookup}
use goidc.Model.Params.{AuthorizationParameters, ClaimsObject}
use goidc.Model.Value.{ℤ, AuthorizationDetail}
use goidc.Token.Model.{TokenRequest, TokenIntrospectionRequest}

-- strconv.Atoi, and json.Unmarshal of a claims object and of a list of authorization details: `none`
-- for an error, and also for the details of the text "null", which leave a nil slice.
pub record Readers : Type 0 where
  pub atoi : String → Option ℤ
  pub claims_object : String → Option ClaimsObject
  pub authorization_details : String → Option (List AuthorizationDetail)

abbrev or_empty : Option String → String
or_empty none = ""
or_empty (some v) = v

-- PostFormValue, and Get of the values of a query
unfoldable pub value_of : String → List (String × String) → String
unfolding lookup
value_of name values = or_empty (lookup name values)

unfoldable pub new_token_request : List (String × String) → TokenRequest
unfolding value_of new_client_authn_request
new_token_request form = record {
  client_authn = new_client_authn_request form;
  grant_type = value_of "grant_type" form;
  scopes = value_of "scope" form;
  authorization_code = value_of "code" form;
  redirect_uri = value_of "redirect_uri" form;
  refresh_token = value_of "refresh_token" form;
  code_verifier = value_of "code_verifier" form;
}

unfoldable pub new_token_introspection_request : List (String × String) → TokenIntrospectionRequest
unfolding value_of new_client_authn_request
new_token_introspection_request form = record {
  client_authn = new_client_authn_request form;
  token = value_of "token" form;
  token_type_hint = value_of "token_type_hint" form;
}

module _ (readers : Readers) where
  abbrev unless_empty : {A : Type 0} → (String → Option A) → String → Option A
  unless_empty read text = if is_empty text then none else read text

  -- The literal and the three optional parameters, which the query and the form have in common.
  unfoldable pub params_of : List (String × String) → AuthorizationParameters
  unfolding value_of
  params_of values = record {
    request_uri = value_of "request_uri" values;
    request_object = value_of "request" values;
    redirect_uri = value_of "redirect_uri" values;
    response_mode = value_of "response_mode" values;
    response_type = value_of "response_type" values;
    scopes = value_of "scope" values;
    state = value_of "state" values;
    nonce = value_of "nonce" values;
    code_challenge = value_of "code_challenge" values;
    code_challenge_method = value_of "code_challenge_method" values;
    prompt = value_of "prompt" values;
    display = value_of "display" values;
    acr_values = value_of "acr_values" values;
    max_authn_age_secs = readers.atoi (value_of "max_age" values);
    claims = unless_empty readers.claims_object (value_of "claims" values);
    authorization_details =
        unless_empty readers.authorization_details (value_of "authorization_details" values);
  }

  unfoldable pub new_authorization_request : List (String × String) → AuthorizationRequest
  unfolding params_of value_of
  new_authorization_request query = record {
    client_id = value_of "client_id" query;
    params = params_of query;
  }

  unfoldable pub new_pushed_authorization_request :
      List (String × String) → PushedAuthorizationRequest
  unfolding params_of new_client_authn_request
  new_pushed_authorization_request form = record {
    client_authn = new_client_authn_request form;
    params = params_of form;
  }
