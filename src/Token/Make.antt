-- ===== src/Token/Make.antt =====
-- Access tokens and ID tokens (internal/token/make.go).
pub mod Bounds
use goidc.Base.{
  ℕ, suc, ◌+◌, String, Bool, Option, none, some, List, [], ◌∷◌, is_empty, if◌then◌else◌, ◌==◌, ◌||◌,
}
use goidc.Base.Dict.{insert, copy}
use goidc.Model.Client.{Client}
use goidc.Model.Const.TokenFormat
use goidc.Model.Const.TokenType
use goidc.Model.Value.{AuthorizationDetail, Claims, Value}
use goidc.Oidc.Context.{Context, Run}
use goidc.Oidc.Effect.{Outcome, ok, err, panic, base_error, pure, fault, ◌>>=◌}
use goidc.Oidc.ErrorCode
use goidc.Oidc.Http.{dpop_jwt, client_certificate}
use goidc.Oidc.Keys.{token_signature_key}
use goidc.Oidc.Library.{Certificate}
use goidc.Storage.{Fetched, found, failed}
use goidc.StrUtil.Random.{random}
use goidc.Token.Model.{GrantOptions, Token}
use goidc.Token.Pop.{jwk_thumbprint, hash_base64_url_sha256}

abbrev pub value_or_internal_error : Fetched String → Outcome String
value_or_internal_error (failed message) = err (base_error ErrorCode.internal_error message)
value_or_internal_error (found text) = ok text

-- A nil pointer, or an index out of range, panics.
abbrev pub or_panic {ℓ} : {A : Type ℓ} → Option A → Outcome A
or_panic none = panic
or_panic (some a) = ok a

module _ (ctx : Context) where
  open ctx use {library, now}

  -- uuid.New and uuid.NewString
  unfoldable pub new_uuid : Run ctx String
  new_uuid s = (ok (library.new_uuid s.draws), record s { draws = suc s.draws })

  -- strutil.Random, with the numbers of the context
  unfoldable pub random_text : ℕ → Run ctx (Fetched String)
  unfolding random
  random_text length s =
      let (r, draws) = random library.rand_int length s.draws in (r, record s { draws = draws })

  abbrev thumbprint_of_header : Option String → Outcome String
  thumbprint_of_header none = ok ""
  thumbprint_of_header (some dpop) =
      if ctx.dpop_is_enabled then or_panic (jwk_thumbprint ctx dpop) else ok ""

  -- The thumbprint of the key of the DPoP header, and "" where the token is not bound to one.
  unfoldable pub jkt_binding : Outcome String
  unfolding dpop_jwt jwk_thumbprint
  jkt_binding = thumbprint_of_header (dpop_jwt ctx)

  abbrev type_of_header : Option String → String
  type_of_header none = TokenType.bearer
  type_of_header (some dpop) = if ctx.dpop_is_enabled then TokenType.dpop else TokenType.bearer

  unfoldable pub token_type_binding : String
  unfolding dpop_jwt
  token_type_binding = type_of_header (dpop_jwt ctx)

  abbrev thumbprint_of_certificate : Option Certificate → String
  thumbprint_of_certificate none = ""
  thumbprint_of_certificate (some cert) =
      if ctx.tls_bound_tokens_is_enabled then hash_base64_url_sha256 ctx cert.raw else ""

  unfoldable pub certificate_binding : String
  unfolding client_certificate hash_base64_url_sha256
  certificate_binding = thumbprint_of_certificate (client_certificate ctx)

  abbrev has_dpop : Option String → Bool
  has_dpop none = goidc.Base.false
  has_dpop (some dpop) = ctx.dpop_is_enabled

  abbrev has_certificate : Option Certificate → Bool
  has_certificate none = goidc.Base.false
  has_certificate (some cert) = ctx.tls_bound_tokens_is_enabled

  -- The map `confirmation`
  abbrev confirmation_map : String → String → List (String × String)
  confirmation_map jkt cert =
      let tls = if has_certificate (client_certificate ctx) then ("x5t#S256", cert) ∷ [] else [] in
      if has_dpop (dpop_jwt ctx) then ("jkt", jkt) ∷ tls else tls

  abbrev with_confirmation : List (String × String) → Claims → Claims
  with_confirmation [] claims = claims
  with_confirmation (e ∷ es) claims = insert "cnf" (Value.confirmation (e ∷ es)) claims

  abbrev with_details : Option (List AuthorizationDetail) → Claims → Claims
  with_details none claims = claims
  with_details (some ds) claims = insert "authorization_details" (Value.details (some ds)) claims

  -- The claims of a JWT access token, before and after those that the token options add.
  unfoldable pub jwt_token_claims : String → Client → GrantOptions → String → String → Claims
  unfolding insert copy dpop_jwt client_certificate
  jwt_token_claims jwt_id c o jkt cert = copy o.additional_token_claims (
      with_confirmation (confirmation_map jkt cert) (
        with_details o.granted_authorization_details (
          ("jti", Value.text jwt_id)
          ∷ ("iss", Value.text ctx.host)
          ∷ ("sub", Value.text o.subject)
          ∷ ("client_id", Value.text c.id)
          ∷ ("scope", Value.text o.granted_scopes)
          ∷ ("iat", Value.number now)
          ∷ ("exp", Value.number (now + o.token_lifetime_secs))
          ∷ [])))

  unfoldable pub make_jwt_token : Client → GrantOptions → Run ctx Token
  unfolding token_signature_key new_uuid jkt_binding token_type_binding certificate_binding
      jwt_token_claims
  make_jwt_token c o = do
    key ← fault (or_panic (token_signature_key ctx o.token_options))
    jwt_id ← new_uuid
    jkt ← fault jkt_binding
    access_token ← fault (
        value_or_internal_error
          (library.sign_claims key "at+jwt" (jwt_token_claims jwt_id c o jkt certificate_binding)))
    pure (record {
      id = jwt_id;
      format = TokenFormat.jwt;
      value = access_token;
      type = token_type_binding;
      jwk_thumbprint = jkt;
      certificate_thumbprint = certificate_binding;
    })

  unfoldable pub make_opaque_token : GrantOptions → Run ctx Token
  unfolding random_text jkt_binding token_type_binding certificate_binding
  make_opaque_token o = do
    drawn ← random_text o.opaque_token_length
    access_token ← fault (value_or_internal_error drawn)
    jkt ← fault jkt_binding
    pure (record {
      id = access_token;
      format = TokenFormat.opaque;
      value = access_token;
      type = token_type_binding;
      jwk_thumbprint = jkt;
      certificate_thumbprint = certificate_binding;
    })

  -- Make
  unfoldable pub make : Client → GrantOptions → Run ctx Token
  unfolding make_jwt_token make_opaque_token
  make c o = if o.token_format == TokenFormat.jwt then make_jwt_token c o else make_opaque_token o
