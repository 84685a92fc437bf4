-- ===== src/Authorize/Validation/Accepted.antt =====
-- Which parameters are accepted (internal/authorize/validation.go), and where a refusal may be sent.
use goidc.Base.{
  String, Bool, true, false, Option, none, some, is_empty, not, ◌&&◌, ◌||◌, ◌≡◌, refl, ap, ◌∙◌,
  arith, ◌!=◌, not-false, Bool-cases, inl, inr,
}
use goidc.Model.Client.{
  Client, are_scopes_allowed, is_redirect_uri_allowed, is_grant_type_allowed,
  is_response_type_allowed,
}
use goidc.Model.Const.ClientAuthn
use goidc.Model.Const.GrantType
use goidc.Model.Const.ResponseType
use goidc.Model.Params.{AuthorizationParameters}
use goidc.Oidc.Context.{Context}
use goidc.Oidc.Effect.{Error, base_error, redirection_error}
use goidc.Oidc.Effect.Laws.{test-failed}
use goidc.StrUtil.{contains_open_id}
use goidc.Authorize.Validation.{
  ◌else_check◌, refuse_if, validate_scopes, validate_pkce, validate_response_type,
  validate_response_mode, validate_authorization_details, validate_acr_values, validate_params,
  validate_params_authorize,
}

else_check-none : (a b : Option Error) → (a else_check b) ≡ none → (a ≡ none) × (b ≡ none)
else_check-none none b h = (refl, h)
else_check-none (some e) b h = cc

module _ (ctx : Context) (params : AuthorizationParameters) (c : Client) where
  -- What the server relies on in parameters that it has accepted from the client.
  pub record IsAccepted : Type 0 where
    pub redirects : is_empty params.redirect_uri ≡ false
    pub registered : is_redirect_uri_allowed c params.redirect_uri ≡ true
    pub scopes_allowed : are_scopes_allowed c ctx.scopes params.scopes ≡ true
    pub type_allowed : is_response_type_allowed c params.response_type ≡ true
    pub code_granted :
        (not (ResponseType.has params.response_type ResponseType.code)
          || is_grant_type_allowed c GrantType.authorization_code)
        ≡ true
    pub implicit_granted :
        (not (ResponseType.is_implicit params.response_type)
          || is_grant_type_allowed c GrantType.implicit)
        ≡ true
    pub id_token_wanted :
        (not (ResponseType.has params.response_type ResponseType.id_token)
          || (contains_open_id params.scopes && not (is_empty params.nonce)))
        ≡ true
    pub challenged :
        (not (is_empty params.code_challenge)
          || (not ctx.pkce_is_required
              && (not ctx.pkce_is_enabled || (c.authn_method != ClientAuthn.none_authn))))
        ≡ true

  validate_response_type_lem :
      validate_response_type ctx params c ≡ none
      → is_empty params.response_type ≡ false
      → (is_response_type_allowed c params.response_type ≡ true)
        × ((not (ResponseType.has params.response_type ResponseType.code)
              || is_grant_type_allowed c GrantType.authorization_code)
            ≡ true)
        × ((not (ResponseType.is_implicit params.response_type)
              || is_grant_type_allowed c GrantType.implicit)
            ≡ true)
  unfolding validate_response_type
  validate_response_type_lem h given = (ground arith, ground arith, ground arith)

  validate_pkce_lem :
      validate_pkce ctx params c ≡ none
      → (not (is_empty params.code_challenge)
          || (not ctx.pkce_is_required
              && (not ctx.pkce_is_enabled || (c.authn_method != ClientAuthn.none_authn))))
        ≡ true
  unfolding validate_pkce
  validate_pkce_lem h = ground arith

  validate_scopes_lem :
      validate_scopes ctx params c ≡ none → are_scopes_allowed c ctx.scopes params.scopes ≡ true
  unfolding validate_scopes
  validate_scopes_lem h = let (p1, h1) = else_check-none _ _ h in not-false _ (test-failed _ _ p1)

  and_lem :
      (a b n : Bool) → (a && not b) ≡ false → (a && n) ≡ false → (not a || (b && not n)) ≡ true
  and_lem a b n h k = ground arith

  pub validated-IsAccepted : validate_params_authorize ctx params c ≡ none → IsAccepted
  unfolding validate_params_authorize validate_params
  validated-IsAccepted h =
      let (p1, h1) = else_check-none _ _ h in
      let (p2, h2) = else_check-none _ _ h1 in
      let (p3, h3) = else_check-none _ _ h2 in
      let (p4, h4) = else_check-none _ _ h3 in
      let (p5, h5) = else_check-none _ _ h4 in
      let (p6, h6) = else_check-none _ _ h5 in
      let (q1, k1) = else_check-none _ _ p2 in
      let (q2, k2) = else_check-none _ _ k1 in
      let (q3, k3) = else_check-none _ _ k2 in
      let (t1, t2, t3) = validate_response_type_lem q3 (test-failed _ _ p3) in
      record {
        redirects = test-failed _ _ p1;
        registered = not-false _ (test-failed _ _ q1);
        scopes_allowed = validate_scopes_lem q2;
        type_allowed = t1;
        code_granted = t2;
        implicit_granted = t3;
        id_token_wanted = and_lem _ _ _ (test-failed _ _ p5) (test-failed _ _ p6);
        challenged = validate_pkce_lem h6;
      }

  -- An error that is sent to a redirect URI is sent with the parameters given.
  record Stays (o : Option Error) : Type 0 where
    pub at :
        (code description : String) (p : AuthorizationParameters)
        → o ≡ some (redirection_error code description p)
        → p ≡ params

  Stays-refuse :
      (b : Bool) (code description : String)
      → Stays (refuse_if b (redirection_error code description params))
  Stays-refuse true code description = record { at = λ code' description' p h. cc }
  Stays-refuse false code description = record { at = λ code' description' p h. cc }

  Stays-base :
      (b : Bool) (code description : String) → Stays (refuse_if b (base_error code description))
  Stays-base true code description = record { at = λ code' description' p h. cc }
  Stays-base false code description = record { at = λ code' description' p h. cc }

  Stays-else : (a b : Option Error) → Stays a → Stays b → Stays (a else_check b)
  Stays-else none b sa sb = sb
  Stays-else (some e) b sa sb = sa

  Stays-details : Stays (validate_authorization_details ctx params c)
  unfolding validate_authorization_details
  Stays-details = record { at = λ code description p h. ground arith }

  Stays-validated : Stays (validate_params_authorize ctx params c)
  unfolding validate_params_authorize validate_params validate_scopes validate_pkce
      validate_response_type validate_response_mode validate_acr_values
  Stays-validated = search (Stays-refuse, Stays-base, Stays-else, Stays-details) depth 16

  unregistered :
      (code description : String) (p : AuthorizationParameters)
      → is_redirect_uri_allowed c params.redirect_uri ≡ false
      → validate_params_authorize ctx params c ≡ some (redirection_error code description p)
      → ⊥
  unfolding validate_params_authorize validate_params
  unregistered code description p f h = ground arith

  -- An error that is sent to the redirect URI of a request has the request's parameters, and their
  -- redirect URI begins with one of the client's.
  pub refused-registered :
      (code description : String) (p : AuthorizationParameters)
      → validate_params_authorize ctx params c ≡ some (redirection_error code description p)
      → (p ≡ params) × (is_redirect_uri_allowed c p.redirect_uri ≡ true)
  refused-registered code description p h =
      let e = Stays-validated.at code description p h in
      elim (Bool-cases (is_redirect_uri_allowed c params.redirect_uri)) [
        | inl t ↦ (e, ap (λ q. is_redirect_uri_allowed c q.redirect_uri) e ∙ t)
        | inr f ↦ absurd (unregistered code description p f h)
      ]
