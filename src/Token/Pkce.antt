-- ===== src/Token/Pkce.antt =====
-- PKCE at the token endpoint: validatePkce and isPKCEValid of internal/token/authz_code.go.
use Prim.Native.String.{len}
use goidc.Base.{
  String, Bool, false, Option, none, some, is_empty, if◌then◌else◌, ◌==◌, ◌&&◌, ◌||◌, not, ltb,
}
use goidc.Model.Const.CodeChallenge
use goidc.Model.Const.Profile
use goidc.Model.Session.{AuthnSession}
use goidc.Oidc.Context.{Context}
use goidc.Oidc.Effect.{Error, base_error}
use goidc.Oidc.ErrorCode
use goidc.Token.Model.{TokenRequest}
use goidc.Token.Pop.{hash_base64_url_sha256}

module _ (ctx : Context) where
  -- isPKCEValid
  unfoldable pub is_pkce_valid : String → String → String → Bool
  unfolding hash_base64_url_sha256
  is_pkce_valid code_verifier code_challenge method =
      if method == CodeChallenge.plain
      then code_challenge == code_verifier
      else if method == CodeChallenge.sha256
      then code_challenge == hash_base64_url_sha256 ctx code_verifier
      else false

  -- The method that a session's challenge is verified by.
  unfoldable pub effective_method : AuthnSession → String
  effective_method session =
      if ctx.profile == Profile.fapi2
      then CodeChallenge.sha256
      else if is_empty session.code_challenge_method
      then CodeChallenge.plain
      else session.code_challenge_method

  unfoldable pub validate_pkce : TokenRequest → AuthnSession → Option Error
  unfolding is_pkce_valid effective_method
  validate_pkce req session =
      if not (is_empty req.code_verifier)
        && (ltb (len req.code_verifier) 43 || ltb 128 (len req.code_verifier))
      then some (base_error ErrorCode.invalid_request "invalid code verifier")
      else if ctx.pkce_is_enabled
          && (not (is_empty session.code_challenge)
              && (is_empty req.code_verifier
                  || not (
                      is_pkce_valid req.code_verifier session.code_challenge
                        (effective_method session))))
      then some (base_error ErrorCode.invalid_grant "invalid pkce")
      else none
