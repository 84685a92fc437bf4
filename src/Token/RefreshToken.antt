-- ===== src/Token/RefreshToken.antt =====
-- The refresh token grant (internal/token/refresh_token.go).
pub mod Renewal
pub mod Scopes
use goidc.Base.{
  ℕ, String, Bool, false, Option, none, some, List, [], ◌∷◌, is_empty, if◌then◌else◌, ◌!=◌, not,
  ◌&&◌, ◌||◌, all, contains,
}
use goidc.Authn.{client}
use goidc.Model.Client.{Client, is_grant_type_allowed}
use goidc.Model.Const.ClientAuthn
use goidc.Model.Const.GrantType
use goidc.Model.Session.{GrantSession, grant_session_is_expired}
use goidc.Oidc.Context.{
  Context, State, Run, grant_session_by_refresh_token, delete_grant_session, grant_session_written,
  or_internal_error,
}
use goidc.Oidc.Effect.{
  Error, Outcome, Verdict, ok, err, base_error, pure, raise, fault, check, modify, ◌>>=◌, ◌>>◌,
}
use goidc.Oidc.ErrorCode
use goidc.Oidc.Http.{dpop_jwt}
use goidc.StrUtil.{contains_open_id, split_with_spaces}
use goidc.Storage.{Fetched, found, failed}
use goidc.Token.AuthzCode.{Message, receive, refresh_token, store_grant_session}
use goidc.Token.IdToken.{make_id_token}
use goidc.Token.Make.{make}
use goidc.Token.Model.{Token, TokenRequest, TokenResponse, new_grant_options, new_id_token_options}
use goidc.Token.Pop.{validate_dpop_jwt}

unfoldable pub contains_all_scopes : String → String → Bool
unfolding split_with_spaces
contains_all_scopes available_scopes requested_scopes =
    all (λ e. contains (split_with_spaces available_scopes) e) (split_with_spaces requested_scopes)

module _ (ctx : Context) where
  open ctx use {now}

  -- validateRefreshTokenProofOfPossesionForPublicClients
  abbrev proof_of_header : GrantSession → Option String → Verdict
  proof_of_header g none = err (base_error ErrorCode.unauthorized_client "invalid DPoP header")
  proof_of_header g (some dpop) =
      validate_dpop_jwt ctx dpop (record { access_token = ""; jwk_thumbprint = g.jwk_thumbprint })

  unfoldable pub validate_refresh_token_proof_of_possession : Client → GrantSession → Verdict
  unfolding dpop_jwt validate_dpop_jwt
  validate_refresh_token_proof_of_possession c g =
      if (c.authn_method != ClientAuthn.none_authn) || is_empty g.jwk_thumbprint
      then ok tt
      else proof_of_header g (dpop_jwt ctx)

  -- A session that is expired is deleted.
  unfoldable pub delete_expired : GrantSession → Run ctx (Unit {0})
  unfolding delete_grant_session
  delete_expired g =
      if grant_session_is_expired now g
      then (λ s. or_internal_error ctx (delete_grant_session ctx g.id s))
        >> raise (base_error ErrorCode.unauthorized_client "the refresh token is expired")
      else pure tt

  -- validateRefreshTokenGrantRequest
  unfoldable pub validate_refresh_token_grant_request :
      TokenRequest → Client → GrantSession → Run ctx (Unit {0})
  unfolding delete_expired contains_all_scopes validate_refresh_token_proof_of_possession
  validate_refresh_token_grant_request req c g = do
    check (
        if not (is_grant_type_allowed c GrantType.refresh_token)
        then some (base_error ErrorCode.unauthorized_client "invalid grant type")
        else none)
    check (
        if c.id != g.client_id
        then some
            (base_error ErrorCode.invalid_grant "the refresh token was not issued to the client")
        else none)
    delete_expired g
    check (
        if not (is_empty req.scopes) && not (contains_all_scopes g.granted_scopes req.scopes)
        then some (base_error ErrorCode.invalid_scope "invalid scope")
        else none)
    fault (validate_refresh_token_proof_of_possession c g)

  -- getGrantSessionByRefreshToken, a goroutine, up to its first message: its second one, after a
  -- session that is not found, is never received.
  unfoldable pub get_grant_session_by_refresh_token : String → State ctx → Message GrantSession
  unfolding grant_session_by_refresh_token
  get_grant_session_by_refresh_token token s = elim (grant_session_by_refresh_token ctx token s) [
    | failed message ↦ record {
      result = none;
      error = some (base_error ErrorCode.invalid_request "invalid refresh_token");
      crashes = false;
    }
    | found g ↦ record { result = some g; error = none; crashes = false }
  ]

  -- getAuthenticatedClientAndGrantSession. The goroutine reads the grant sessions only, and the
  -- authentication changes clients only.
  unfoldable pub get_authenticated_client_and_grant_session :
      TokenRequest → Run ctx (Client × GrantSession)
  unfolding get_grant_session_by_refresh_token
  get_authenticated_client_and_grant_session req s =
      let message = get_grant_session_by_refresh_token req.refresh_token s in
      (client ctx req.client_authn >>= λ c. fault (receive message) >>= λ g. pure (c, g)) s

  -- The new refresh token of a session, which keeps its own where tokens are not rotated.
  unfoldable pub rotate : GrantSession → Run ctx GrantSession
  unfolding refresh_token grant_session_written
  rotate g =
      if ctx.should_rotate_refresh_tokens
      then (refresh_token ctx >>= λ token. pure (record g { refresh_token = token }))
      else pure g

  -- updateRefreshTokenGrantSession. The session is a pointer: what is assigned before an error stays
  -- assigned where the manager keeps the pointer.
  unfoldable pub update_refresh_token_grant_session :
      GrantSession → TokenRequest → Token → Run ctx GrantSession
  unfolding rotate grant_session_written store_grant_session
  update_refresh_token_grant_session g req token = do
    let issued = record g { last_token_issued_at_timestamp = now; token_id = token.id }
    modify (grant_session_written ctx issued)
    rotated ← rotate issued
    let updated =
        if is_empty req.scopes then rotated else record rotated { active_scopes = req.scopes }
    modify (grant_session_written ctx updated)
    store_grant_session ctx updated
    pure updated

  abbrev pub id_token_of : Client → GrantSession → Run ctx String
  id_token_of c g =
      if contains_open_id g.active_scopes
      then (make_id_token ctx c (new_id_token_options (new_grant_options g)) >>= λ made.
          pure made.0)
      else pure ""

  -- The part of the handler that comes after the validations.
  unfoldable pub renew : TokenRequest → Client → GrantSession → Run ctx TokenResponse
  unfolding update_refresh_token_grant_session new_grant_options
  renew req c g = do
    token ← make ctx c (new_grant_options g)
    updated ← update_refresh_token_grant_session g req token
    id_token ← id_token_of c updated
    pure (record {
      access_token = token.value;
      id_token = id_token;
      refresh_token = updated.refresh_token;
      expires_in = updated.token_lifetime_secs;
      token_type = token.type;
      scopes = "";
      authorization_details = none;
    })

  -- handleRefreshTokenGrantTokenCreation, with preValidateRefreshTokenGrantRequest
  unfoldable pub handle_refresh_token_grant_token_creation : TokenRequest → Run ctx TokenResponse
  unfolding get_authenticated_client_and_grant_session validate_refresh_token_grant_request renew
  handle_refresh_token_grant_token_creation req = do
    check (
        if is_empty req.refresh_token
        then some (base_error ErrorCode.invalid_request "invalid parameter for refresh token grant")
        else none)
    parties ← get_authenticated_client_and_grant_session req
    validate_refresh_token_grant_request req parties.0 parties.1
    renew req parties.0 parties.1
