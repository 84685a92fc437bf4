-- ===== src/Tests/Tokens.antt =====
-- The other grants, introspection, user info and authentication at the sample server.
use goidc.Base.{[], ◌≡◌, refl, subst}
use goidc.Model.Client.{Client}
use goidc.Model.Session.{TokenInfo}
use goidc.Oidc.Context.{State}
use goidc.Oidc.Effect.{Outcome}
use goidc.Tests.Runs.{runs}
use goidc.Tests.Sample.{ctx, before, token_request, introspection_request, value_or, grant}
use goidc.Token.ClientCredentials.{handle_client_credentials_grant_token_creation}
use goidc.Token.ClientCredentials.Permitted.{IsGranted, credentials-ok}
use goidc.Token.Introspection.{introspect, inactive}
use goidc.Token.Introspection.Active.{IsIntrospected, introspect-active}
use goidc.Token.Model.{Token, TokenResponse, empty_response}
use goidc.Token.RefreshToken.{handle_refresh_token_grant_token_creation}
use goidc.Token.RefreshToken.Renewal.{IsRenewed, renewal-ok}
use goidc.Token.RefreshToken.Scopes.{IsRenewedWithin, IsWithinGrant, renewal-Renews}
use goidc.UserInfo.{UserInfoResponse, handle_user_info_request}
use goidc.UserInfo.Laws.{IsAnswered, user-info-ok}

abbrev sample_token : Token
sample_token = record {
  id = "aaaaa";
  format = "opaque";
  value = "aaaaa";
  type = "Bearer";
  jwk_thumbprint = "";
  certificate_thumbprint = "";
}

abbrev renewed : Outcome TokenResponse × State ctx
renewed = handle_refresh_token_grant_token_creation ctx token_request before

abbrev renewal_response : TokenResponse
renewal_response = value_or empty_response renewed.0

renewal-ok_example : IsRenewed ctx token_request before renewed.1 renewal_response
unfolding runs
renewal-ok_example = renewal-ok ctx token_request before renewed.1 renewal_response refl

grant-within : IsWithinGrant grant
unfolding runs IsWithinGrant
grant-within = refl

renewal-Renews_example : IsRenewedWithin ctx token_request before renewed.1 renewal_response
unfolding runs
renewal-Renews_example =
    renewal-Renews ctx token_request before renewed.1 renewal_response
      (λ g h. subst IsWithinGrant (let e : grant ≡ g = cc in e) grant-within) refl

abbrev issued : Outcome TokenResponse × State ctx
issued = handle_client_credentials_grant_token_creation ctx token_request before

abbrev issued_response : TokenResponse
issued_response = value_or empty_response issued.0

credentials-ok_example : IsGranted ctx token_request before issued.1 issued_response
unfolding runs
credentials-ok_example = credentials-ok ctx token_request before issued.1 issued_response refl

abbrev introspected : Outcome TokenInfo × State ctx
introspected = introspect ctx introspection_request before

abbrev introspected_info : TokenInfo
introspected_info = value_or inactive introspected.0

introspect-active_example :
    IsIntrospected ctx introspection_request before introspected.1 introspected_info
unfolding runs
introspect-active_example =
    introspect-active ctx introspection_request before introspected.1 introspected_info refl refl

abbrev answered : Outcome UserInfoResponse × State ctx
answered = handle_user_info_request ctx before

abbrev answer : UserInfoResponse
answer = value_or (record { jwt_claims = ""; claims = [] }) answered.0

user-info-ok_example : IsAnswered ctx before answered.1 answer
unfolding runs
user-info-ok_example = user-info-ok ctx before answered.1 answer refl
