-- ===== src/Token/Stored/Frame.antt =====
-- The parts of the token endpoint (internal/token) that leave the grant sessions alone.
use goidc.Base.{String, ap, arith}
use goidc.Authn.{client}
use goidc.Authn.ClientId.{ClientAuthnRequest}
use goidc.Authn.Frame.{Keeps-client, fetch_public_jwks_keeps}
use goidc.Model.Client.{Client}
use goidc.Model.Session.{AuthnSession, GrantSession}
use goidc.Oidc.Context.{Context, authn_session_by_authorization_code, delete_authn_session}
use goidc.Oidc.Effect.{fault, pure, ◌>>=◌}
use goidc.Oidc.Effect.Frame.{Keeps, keeps_rules}
use goidc.Oidc.Keys.{encryption_jwk}
use goidc.Token.AuthzCode.{
  Message, receive, get_session_by_authorization_code, get_authenticated_client_and_session,
  refresh_token, validate_authorization_code_grant_request, id_token_if_open_id,
}
use goidc.Token.ClientCredentials.{validate_client_credentials_grant_request}
use goidc.Token.IdToken.{make_id_token, make_signed_id_token, encrypt_for_client}
use goidc.Token.Make.Bounds.{grants, Keeps-random_text}
use goidc.Token.Model.{GrantOptions, IdTokenOptions, TokenRequest}
use goidc.Token.RefreshToken.{id_token_of}

module _ (ctx : Context) where
  pub Keeps-authentication : (req : ClientAuthnRequest) → Keeps (grants ctx) (client ctx req)
  Keeps-authentication req = record {
    at = λ s. ap (λ v. v.grant_sessions) ((Keeps-client ctx req).at s);
  }

  pub Keeps-refresh_token : Keeps (grants ctx) (refresh_token ctx)
  unfolding refresh_token
  Keeps-refresh_token = search (keeps_rules, Keeps-random_text) depth 9

  Keeps-encrypt_for_client :
      (k e : String) (c : Client) (text : String)
      → Keeps (grants ctx) (encrypt_for_client ctx k e c text)
  unfolding encrypt_for_client encryption_jwk
  Keeps-encrypt_for_client k e c text = record {
    at = λ s. ground (arith, ap (λ v. v.grant_sessions) (fetch_public_jwks_keeps ctx c s));
  }

  Keeps-signed :
      (c : Client) (o : IdTokenOptions) → Keeps (grants ctx) (make_signed_id_token ctx c o)
  unfolding make_signed_id_token
  Keeps-signed c o = search keeps_rules depth 12

  Keeps-make_id_token :
      (c : Client) (o : IdTokenOptions) → Keeps (grants ctx) (make_id_token ctx c o)
  unfolding make_id_token
  Keeps-make_id_token c o = search (keeps_rules, Keeps-signed, Keeps-encrypt_for_client) depth 9

  pub Keeps-id_token_if_open_id :
      (c : Client) (session : AuthnSession) (o : GrantOptions)
      → Keeps (grants ctx) (id_token_if_open_id ctx c session o)
  Keeps-id_token_if_open_id c session o = search (keeps_rules, Keeps-make_id_token) depth 9

  pub Keeps-id_token_of : (c : Client) (g : GrantSession) → Keeps (grants ctx) (id_token_of ctx c g)
  Keeps-id_token_of c g = search (keeps_rules, Keeps-make_id_token) depth 9

  Keeps-code : (code : String) → Keeps (grants ctx) (get_session_by_authorization_code ctx code)
  unfolding get_session_by_authorization_code authn_session_by_authorization_code
      delete_authn_session
  Keeps-code code = record { at = λ s. ground arith }

  pub Keeps-parties :
      (req : TokenRequest) → Keeps (grants ctx) (get_authenticated_client_and_session ctx req)
  unfolding get_authenticated_client_and_session
  Keeps-parties req = search (keeps_rules, Keeps-authentication, Keeps-code) depth 12

  pub Keeps-code_validated :
      (req : TokenRequest) (c : Client) (session : AuthnSession)
      → Keeps (grants ctx) (validate_authorization_code_grant_request ctx req c session)
  unfolding validate_authorization_code_grant_request
  Keeps-code_validated req c session = search keeps_rules depth 12

  pub Keeps-credentials_validated :
      (req : TokenRequest) (c : Client)
      → Keeps (grants ctx) (validate_client_credentials_grant_request ctx req c)
  unfolding validate_client_credentials_grant_request
  Keeps-credentials_validated req c = search keeps_rules depth 12

  pub Keeps-authenticated :
      (req : TokenRequest) (m : Message GrantSession)
      → Keeps {A = Client × GrantSession}
          (grants ctx)
          (client ctx req.client_authn >>= λ c. fault (receive m) >>= λ g. pure (c, g))
  Keeps-authenticated req m = search (keeps_rules, Keeps-authentication) depth 9
