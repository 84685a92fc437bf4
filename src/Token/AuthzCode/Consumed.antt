-- ===== src/Token/AuthzCode/Consumed.antt =====
-- A code is used up by the exchange that finds it (internal/token/authz_code.go), whatever comes of it.
use goidc.Base.{String, none, ◌≡◌, ◌∙◌, ap, ◌≢◌, arith, not-is_empty}
use goidc.Oidc.Keys.{encryption_jwk}
use goidc.Authn.{client}
use goidc.Authn.Frame.{Keeps-client, fetch_public_jwks_keeps}
use goidc.Authn.ClientId.{ClientAuthnRequest}
use goidc.Model.Client.{Client}
use goidc.Model.Session.{AuthnSession, GrantSession}
use goidc.Oidc.Context.{
  Context, State, authn_session_by_authorization_code, delete_authn_session, save_grant_session,
}
use goidc.Oidc.Effect.{ok, fault, pure, ◌>>=◌}
use goidc.Oidc.Effect.Frame.{Keeps, after->>=, keeps_rules}
use goidc.Oidc.Effect.Laws.{passed-then}
use goidc.Storage.{found}
use goidc.Token.AuthzCode.{
  Message, receive, get_session_by_authorization_code, get_authenticated_client_and_session,
  add_refresh_token, store_grant_session, generate_authorization_code_grant_session,
  issue_for_session, refresh_token, handle_authorization_code_grant_token_creation,
  validate_authorization_code_grant_request,
}
use goidc.Token.Frame.{sessions, Keeps-make, Keeps-new_uuid, Keeps-random_text}
use goidc.Token.IdToken.{make_id_token, make_signed_id_token, encrypt_for_client}
use goidc.Token.Model.{GrantOptions, Token, IdTokenOptions, TokenRequest}

module _ (ctx : Context) where
  Keeps-authentication : (req : ClientAuthnRequest) → Keeps (sessions ctx) (client ctx req)
  Keeps-authentication req = record {
    at = λ s. ap (λ v. v.authn_sessions) ((Keeps-client ctx req).at s);
  }

  pub Keeps-store : (g : GrantSession) → Keeps (sessions ctx) (store_grant_session ctx g)
  unfolding store_grant_session save_grant_session
  Keeps-store g = record { at = λ s. ground arith }

  pub stored-ok :
      (g : GrantSession) (s t : State ctx) {u : Unit {0}}
      → store_grant_session ctx g s ≡ (ok u, t)
      → save_grant_session ctx g s ≡ (none, t)
  unfolding store_grant_session save_grant_session
  stored-ok g s t h = ground arith

  Keeps-refresh_token : Keeps (sessions ctx) (refresh_token ctx)
  unfolding refresh_token
  Keeps-refresh_token = search (keeps_rules, Keeps-random_text) depth 9

  Keeps-add_refresh_token : (g : GrantSession) → Keeps (sessions ctx) (add_refresh_token ctx g)
  unfolding add_refresh_token
  Keeps-add_refresh_token g = search (keeps_rules, Keeps-refresh_token) depth 9

  Keeps-generate :
      (token : Token) (o : GrantOptions)
      → Keeps (sessions ctx) (generate_authorization_code_grant_session ctx token o)
  unfolding generate_authorization_code_grant_session
  Keeps-generate token o =
      search (keeps_rules, Keeps-new_uuid, Keeps-store, Keeps-add_refresh_token) depth 9

  pub Keeps-encrypt_for_client :
      (k e : String) (c : Client) (text : String)
      → Keeps (sessions ctx) (encrypt_for_client ctx k e c text)
  unfolding encrypt_for_client encryption_jwk
  Keeps-encrypt_for_client k e c text = record {
    at = λ s. ground (arith, ap (λ v. v.authn_sessions) (fetch_public_jwks_keeps ctx c s));
  }

  Keeps-signed :
      (c : Client) (o : IdTokenOptions) → Keeps (sessions ctx) (make_signed_id_token ctx c o)
  unfolding make_signed_id_token
  Keeps-signed c o = search keeps_rules depth 12

  pub Keeps-make_id_token :
      (c : Client) (o : IdTokenOptions) → Keeps (sessions ctx) (make_id_token ctx c o)
  unfolding make_id_token
  Keeps-make_id_token c o = search (keeps_rules, Keeps-signed, Keeps-encrypt_for_client) depth 9

  Keeps-issue :
      (req : TokenRequest) (c : Client) (session : AuthnSession)
      → Keeps (sessions ctx) (issue_for_session ctx req c session)
  unfolding issue_for_session
  Keeps-issue req c session =
      search (keeps_rules, Keeps-make ctx, Keeps-generate, Keeps-make_id_token) depth 9

  Keeps-validate :
      (req : TokenRequest) (c : Client) (session : AuthnSession)
      → Keeps (sessions ctx) (validate_authorization_code_grant_request ctx req c session)
  unfolding validate_authorization_code_grant_request
  Keeps-validate req c session = search keeps_rules depth 12

  found-deleted :
      (code : String) (s : State ctx) (session : AuthnSession)
      → authn_session_by_authorization_code ctx code s ≡ found session
      → (get_session_by_authorization_code ctx code s).1.authn_sessions
        ≡ (delete_authn_session ctx session.id s).1.authn_sessions
  unfolding get_session_by_authorization_code
  found-deleted code s session h = ground arith

  Keeps-authenticated :
      (req : TokenRequest) (m : Message AuthnSession)
      → Keeps {A = Client × AuthnSession}
          (sessions ctx)
          (client ctx req.client_authn >>= λ c. fault (receive m) >>= λ session. pure (c, session))
  Keeps-authenticated req m = search (keeps_rules, Keeps-authentication) depth 9

  Keeps-rest :
      (req : TokenRequest) (p : Client × AuthnSession)
      → Keeps (sessions ctx) (
          validate_authorization_code_grant_request ctx req p.0 p.1 >>= λ _.
          issue_for_session ctx req p.0 p.1)
  Keeps-rest req p = search (keeps_rules, Keeps-validate, Keeps-issue) depth 9

  -- Where the code is found, the exchange leaves the authorization sessions that the deletion of its
  -- session leaves, whatever else comes of it.
  pub session-consumed :
      (req : TokenRequest) (s : State ctx) (session : AuthnSession)
      → req.authorization_code ≢ ""
      → authn_session_by_authorization_code ctx req.authorization_code s ≡ found session
      → (handle_authorization_code_grant_token_creation ctx req s).1.authn_sessions
        ≡ (delete_authn_session ctx session.id s).1.authn_sessions
  unfolding handle_authorization_code_grant_token_creation get_authenticated_client_and_session
  session-consumed req s session given h =
      ap (λ r. r.1.authn_sessions) (passed-then _ _ _ s (not-is_empty _ given))
      ∙ after->>= {view = sessions ctx} (get_authenticated_client_and_session ctx req) _ s
          (λ p. Keeps-rest req p)
      ∙ after->>= {view = sessions ctx}
          (get_session_by_authorization_code ctx req.authorization_code) _ s
          (λ m. Keeps-authenticated req m)
      ∙ found-deleted req.authorization_code s session h
