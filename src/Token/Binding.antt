-- ===== src/Token/Binding.antt =====
-- Whether a token request binds the token to its sender (internal/token/validation.go).
use goidc.Base.{String, Option, none, some, if◌then◌else◌, ◌&&◌, ◌||◌, not, is_some}
use goidc.Model.Client.{Client}
use goidc.Oidc.Context.{Context}
use goidc.Oidc.Effect.{Error, Verdict, ok, err, base_error}
use goidc.Oidc.ErrorCode
use goidc.Oidc.Http.{dpop_jwt, client_certificate}
use goidc.Token.Pop.{validate_dpop_jwt}

module _ (ctx : Context) where
  -- validateTokenBindingIsRequired; its local `tokenWillBeBound` is the second test.
  unfoldable pub validate_token_binding_is_required : Option Error
  unfolding dpop_jwt client_certificate
  validate_token_binding_is_required =
      if not ctx.sender_constrained_token_is_required
      then none
      else if (ctx.dpop_is_enabled && is_some (dpop_jwt ctx))
          || (ctx.tls_bound_tokens_is_enabled && is_some (client_certificate ctx))
      then none
      else some
          (base_error ErrorCode.invalid_request "token binding is required either with dpop or tls")

  abbrev pub validate_header : Client → Option String → Verdict
  validate_header c none =
      if ctx.dpop_is_required || c.dpop_is_required
      then err (base_error ErrorCode.invalid_request "invalid dpop header")
      else ok tt
  validate_header c (some dpop) =
      if not ctx.dpop_is_enabled
      then ok tt
      else validate_dpop_jwt ctx dpop (record { access_token = ""; jwk_thumbprint = "" })

  -- validateTokenBindingRequestWithDPoP
  unfoldable pub validate_token_binding_request_with_dpop : Client → Verdict
  unfolding dpop_jwt validate_dpop_jwt
  validate_token_binding_request_with_dpop c = validate_header c (dpop_jwt ctx)
