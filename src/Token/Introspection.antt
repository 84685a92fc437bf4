-- ===== src/Token/Introspection.antt =====
-- Token introspection (internal/token/introspection.go).
pub mod Active
use Prim.Native.String.{len}
use goidc.Base.{
  ℕ, ◌+◌, String, Bool, true, false, Option, none, some, [], is_empty, if◌then◌else◌, not, nat_eq,
}
use goidc.Base.Dict.{lookup}
use goidc.Authn.{client}
use goidc.Model.Client.{Client, is_grant_type_allowed}
use goidc.Model.Const.GrantType
use goidc.Model.Const.TokenHint
use goidc.Model.Session.{GrantSession, TokenInfo, grant_session_is_expired, has_last_token_expired}
use goidc.Model.Value.{Claims, Value}
use goidc.Oidc.Context.{
  Context, State, Run, grant_session_by_refresh_token, grant_session_by_token_id,
}
use goidc.Oidc.Effect.{Error, Outcome, ok, err, panic, crash, base_error, check, ◌>>=◌, ◌>>◌}
use goidc.Oidc.ErrorCode
use goidc.Storage.{Fetched, found, failed}
use goidc.Token.Claims.{is_jws, valid_claims}
use goidc.Token.Model.{TokenIntrospectionRequest, refresh_token_length}

-- TokenInfo{IsActive: false}
abbrev pub inactive : TokenInfo
inactive = record {
  is_active = false;
  token_usage = "";
  scopes = "";
  authorization_details = none;
  client_id = "";
  subject = "";
  expires_at_timestamp = 0;
  jwk_thumbprint = "";
  client_certificate_thumbprint = "";
  additional_token_claims = [];
}

module _ (ctx : Context) where
  open ctx use {now}

  abbrev refresh_token_info : Fetched GrantSession → TokenInfo
  refresh_token_info (failed message) = inactive
  refresh_token_info (found g) = if grant_session_is_expired now g then inactive else record {
    is_active = true;
    token_usage = TokenHint.refresh;
    scopes = g.granted_scopes;
    authorization_details = g.granted_authorization_details;
    client_id = g.client_id;
    subject = g.subject;
    expires_at_timestamp = g.expires_at_timestamp;
    jwk_thumbprint = g.jwk_thumbprint;
    client_certificate_thumbprint = g.client_certificate_thumbprint;
    additional_token_claims = g.additional_token_claims;
  }

  -- getRefreshTokenIntrospectionInfo
  unfoldable pub refresh_token_introspection_info : String → State ctx → TokenInfo
  unfolding grant_session_by_refresh_token
  refresh_token_introspection_info token s =
      refresh_token_info (grant_session_by_refresh_token ctx token s)

  abbrev pub access_token_info : Fetched GrantSession → TokenInfo
  access_token_info (failed message) = inactive
  access_token_info (found g) = if has_last_token_expired now g then inactive else record {
    is_active = true;
    token_usage = TokenHint.access;
    scopes = g.active_scopes;
    authorization_details = g.granted_authorization_details;
    client_id = g.client_id;
    subject = g.subject;
    expires_at_timestamp = g.last_token_issued_at_timestamp + g.token_lifetime_secs;
    jwk_thumbprint = g.jwk_thumbprint;
    client_certificate_thumbprint = g.client_certificate_thumbprint;
    additional_token_claims = g.additional_token_claims;
  }

  unfoldable pub token_introspection_info_by_id : String → State ctx → TokenInfo
  unfolding grant_session_by_token_id
  token_introspection_info_by_id token_id s =
      access_token_info (grant_session_by_token_id ctx token_id s)

  abbrev info_by_claim : Option Value → State ctx → Outcome TokenInfo
  info_by_claim none s = ok inactive
  info_by_claim (some (Value.text token_id)) s = ok (token_introspection_info_by_id token_id s)
  info_by_claim (some _) s = panic

  abbrev info_by_claims : Outcome Claims → State ctx → Outcome TokenInfo
  info_by_claims (ok claims) s = info_by_claim (lookup "jti" claims) s
  info_by_claims (err e) s = ok inactive
  info_by_claims panic s = panic
  info_by_claims crash s = crash

  -- getJWTTokenIntrospectionInfo
  unfoldable pub jwt_token_introspection_info : String → State ctx → Outcome TokenInfo
  unfolding token_introspection_info_by_id
  jwt_token_introspection_info access_token s = info_by_claims (valid_claims ctx access_token) s

  -- TokenIntrospectionInfo, with opaqueTokenIntrospectionInfo
  unfoldable pub token_introspection_info : String → State ctx → Outcome TokenInfo
  unfolding refresh_token_introspection_info jwt_token_introspection_info
      token_introspection_info_by_id
  token_introspection_info access_token s =
      if nat_eq (len access_token) refresh_token_length
      then ok (refresh_token_introspection_info access_token s)
      else if is_jws ctx access_token
      then jwt_token_introspection_info access_token s
      else ok (token_introspection_info_by_id access_token s)

  unfoldable pub validate_token_introspection_request :
      TokenIntrospectionRequest → Client → Option Error
  validate_token_introspection_request req c =
      if not (is_grant_type_allowed c GrantType.introspection)
      then some (base_error ErrorCode.invalid_grant "client not allowed to introspect tokens")
      else if is_empty req.token
      then some (base_error ErrorCode.invalid_request "token is required")
      else none

  unfoldable pub introspect : TokenIntrospectionRequest → Run ctx TokenInfo
  unfolding validate_token_introspection_request token_introspection_info
  introspect req = do
    c ← client ctx req.client_authn
    check (validate_token_introspection_request req c)
    (λ s. (token_introspection_info req.token s, s))
