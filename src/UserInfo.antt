-- ===== src/UserInfo.antt =====
-- The user info endpoint (internal/userinfo/util.go).
pub mod Laws
use goidc.Base.{String, Option, none, some, List, [], ◌∷◌, is_empty, if◌then◌else◌, not}
use goidc.Base.Dict.{insert, copy}
use goidc.Model.Client.{Client}
use goidc.Model.Session.{GrantSession, has_last_token_expired}
use goidc.Model.Value.{Claims, Value}
use goidc.Oidc.Context.{Context, State, Run, client_by_id, grant_session_by_token_id}
use goidc.Oidc.Effect.{
  Error, Outcome, ok, err, panic, crash, base_error, description, pure, fault, check, ◌>>=◌, ◌>>◌,
}
use goidc.Oidc.ErrorCode
use goidc.Oidc.Http.{authorization_token}
use goidc.Oidc.Keys.{user_info_signature_key}
use goidc.Storage.{Fetched, found, failed}
use goidc.StrUtil.{contains_open_id}
use goidc.Token.Claims.{token_id}
use goidc.Token.IdToken.{encrypt_for_client}
use goidc.Token.Make.{or_panic, value_or_internal_error}
use goidc.Token.Model.{Confirmation}
use goidc.Token.Pop.{validate_pop}

pub record UserInfoResponse : Type 0 where
  pub jwt_claims : String
  pub claims : Claims

abbrev token_or_error : Option (String × String) → Outcome (String × String)
token_or_error none = err (base_error ErrorCode.invalid_token "no token found")
token_or_error (some token) = ok token

abbrev session_or_error : Fetched GrantSession → Outcome GrantSession
session_or_error (failed message) = err (base_error ErrorCode.invalid_request "invalid token")
session_or_error (found g) = ok g

abbrev client_or_error : Fetched Client → Outcome Client
client_or_error (failed message) = err (base_error ErrorCode.internal_error message)
client_or_error (found c) = ok c

-- encryptUserInfoJWT answers with errors of its own, which the handler makes internal errors.
abbrev as_internal_error : {A S : Type 0} → Outcome A × S → Outcome A × S
as_internal_error (err e, s) = (err (base_error ErrorCode.internal_error (description e)), s)
as_internal_error (ok a, s) = (ok a, s)
as_internal_error (panic, s) = (panic, s)
as_internal_error (crash, s) = (crash, s)

module _ (ctx : Context) where
  open ctx use {library, now}

  -- validateUserInfoRequest
  unfoldable pub validate_user_info_request : GrantSession → String → String → Run ctx (Unit {0})
  validate_user_info_request g access_token token_type = do
    check (
        if has_last_token_expired now g
        then some (base_error ErrorCode.invalid_request "token expired")
        else none)
    check (
        if not (contains_open_id g.active_scopes)
        then some (base_error ErrorCode.invalid_request "invalid scope")
        else none)
    fault (
        validate_pop ctx access_token token_type (record {
          jwk_thumbprint = g.jwk_thumbprint;
          client_certificate_thumbprint = g.client_certificate_thumbprint;
        }))

  -- signUserInfoClaims
  unfoldable pub sign_user_info_claims : Client → Claims → Run ctx String
  sign_user_info_claims c claims = do
    key ← fault (or_panic (user_info_signature_key ctx c))
    fault (value_or_internal_error (library.sign_claims key "jwt" claims))

  -- The claims of the answer, before it is signed.
  unfoldable pub user_info_claims : GrantSession → Claims
  unfolding copy
  user_info_claims g = copy g.additional_user_info_claims (("sub", Value.text g.subject) ∷ [])

  -- getUserInfoResponse
  unfoldable pub get_user_info_response : Client → GrantSession → Run ctx UserInfoResponse
  unfolding user_info_claims sign_user_info_claims insert encrypt_for_client
  get_user_info_response c g =
      if is_empty c.user_info_signature_algorithm
      then pure (record { jwt_claims = ""; claims = user_info_claims g })
      else (sign_user_info_claims c (
            insert "aud" (Value.text c.id)
              (insert "iss" (Value.text ctx.host) (user_info_claims g)))
          >>= λ jwt.
              if is_empty c.user_info_key_encryption_algorithm
              then pure (record { jwt_claims = jwt; claims = [] })
              else ((λ s. as_internal_error (
                    encrypt_for_client ctx c.user_info_key_encryption_algorithm
                      c.user_info_content_encryption_algorithm c jwt s))
                  >>= λ made. pure (record { jwt_claims = made.0; claims = [] })))

  unfoldable pub handle_user_info_request : Run ctx UserInfoResponse
  unfolding authorization_token token_id validate_user_info_request get_user_info_response
  handle_user_info_request = do
    token ← fault (token_or_error (authorization_token ctx))
    id ← fault (token_id ctx token.0)
    g ← (λ s. (session_or_error (grant_session_by_token_id ctx id s), s))
    validate_user_info_request g token.0 token.1
    c ← (λ s. (client_or_error (client_by_id ctx g.client_id s), s))
    get_user_info_response c g
