-- ===== src/Token/AuthzCode/Exchange.antt =====
-- What holds of a code exchange (internal/token/authz_code.go) that returned tokens.
use goidc.Base.{
  Option, subst, ◌≤◌, String, true, false, none, some, is_empty, if◌then◌else◌, not, ◌≡◌, ◌≢◌, ap,
  arith, ◌||◌, ◌&&◌, is_some, eq-of_!=, not-false, is-true-and-false,
}
use goidc.Authn.{client}
use goidc.Model.Client.{Client, is_grant_type_allowed}
use goidc.Model.Const.GrantType
use goidc.Model.Session.{AuthnSession, authn_session_is_expired}
use goidc.Oidc.Context.{Context, State, authn_session_by_authorization_code, delete_authn_session}
use goidc.Oidc.Effect.{Error, ok}
use goidc.Oidc.Effect.Laws.{check-then-ok, fault-ok, test-failed}
use goidc.Oidc.Http.{dpop_jwt, client_certificate}
use goidc.Storage.{found}
use goidc.Token.AuthzCode.{validate_authorization_code_grant_request, issue_for_session}
use goidc.Token.Binding.{
  validate_token_binding_is_required, validate_token_binding_request_with_dpop, validate_header,
}
use goidc.Token.Pop.{validate_dpop_jwt}
use goidc.Token.Pop.Valid.{IsProof, nothing_expected, validated-IsProof}
use goidc.Token.Model.{TokenRequest, TokenResponse}
use goidc.Token.Pkce.{validate_pkce, is_pkce_valid, effective_method}

module _ (ctx : Context) (req : TokenRequest) where
  -- The conditions under which a session's code is exchanged for tokens.
  pub record IsRedeemable (c : Client) (session : AuthnSession) : Type 0 where
    pub code_given : req.authorization_code ≢ ""
    pub granted : is_grant_type_allowed c GrantType.authorization_code ≡ true
    pub issued_to : session.client_id ≡ c.id
    pub fresh : ctx.now ≤ session.expires_at_timestamp
    pub same_redirect : session.redirect_uri ≡ req.redirect_uri
    pub verified :
        (not ctx.pkce_is_enabled
          || is_empty session.code_challenge
          || is_pkce_valid ctx req.code_verifier session.code_challenge
              (effective_method ctx session))
        ≡ true
    pub bound :
        (not ctx.sender_constrained_token_is_required
          || (ctx.dpop_is_enabled && is_some (dpop_jwt ctx))
          || (ctx.tls_bound_tokens_is_enabled && is_some (client_certificate ctx)))
        ≡ true
    pub proof_given : dpop_jwt ctx ≡ none → (ctx.dpop_is_required || c.dpop_is_required) ≡ false
    pub proven :
        (dpop : String) → dpop_jwt ctx ≡ some dpop → ctx.dpop_is_enabled ≡ true → IsProof ctx dpop

  pkce-verified :
      (session : AuthnSession)
      → validate_pkce ctx req session ≡ none
      → (not ctx.pkce_is_enabled
          || is_empty session.code_challenge
          || is_pkce_valid ctx req.code_verifier session.code_challenge
              (effective_method ctx session))
        ≡ true
  unfolding validate_pkce
  pkce-verified session h = ground arith

  binding-required :
      validate_token_binding_is_required ctx ≡ none
      → (not ctx.sender_constrained_token_is_required
          || (ctx.dpop_is_enabled && is_some (dpop_jwt ctx))
          || (ctx.tls_bound_tokens_is_enabled && is_some (client_certificate ctx)))
        ≡ true
  unfolding validate_token_binding_is_required
  binding-required h = ground arith

  header-validated :
      (text : String)
      → ctx.dpop_is_enabled ≡ true
      → (if not ctx.dpop_is_enabled then ok tt else validate_dpop_jwt ctx text nothing_expected)
        ≡ ok tt
      → validate_dpop_jwt ctx text nothing_expected ≡ ok tt
  header-validated text enabled h = ground arith

  -- What the DPoP header of a request shows, if its validation passed.
  header-proven :
      (c : Client) (o : Option String)
      → validate_header ctx c o ≡ ok tt
      → (o ≡ none → (ctx.dpop_is_required || c.dpop_is_required) ≡ false)
        × ((dpop : String) → o ≡ some dpop → ctx.dpop_is_enabled ≡ true → IsProof ctx dpop)
  header-proven c none h = (λ e. ground arith, λ dpop e. absurd cc)
  header-proven c (some text) h = (
    λ e. absurd cc,
    λ dpop e enabled.
        let same : text ≡ dpop = cc in
        subst (IsProof ctx) same (validated-IsProof ctx text (header-validated text enabled h)),
  )

  dpop-proven :
      (c : Client)
      → validate_token_binding_request_with_dpop ctx c ≡ ok tt
      → (dpop_jwt ctx ≡ none → (ctx.dpop_is_required || c.dpop_is_required) ≡ false)
        × ((dpop : String)
            → dpop_jwt ctx ≡ some dpop
            → ctx.dpop_is_enabled ≡ true
            → IsProof ctx dpop)
  unfolding validate_token_binding_request_with_dpop
  dpop-proven c h = header-proven c (dpop_jwt ctx) h

  not-expired :
      (session : AuthnSession)
      → authn_session_is_expired ctx.now session ≡ false
      → ctx.now ≤ session.expires_at_timestamp
  unfolding authn_session_is_expired
  not-expired session h = ground arith

  given :
      (e : Error)
      → (if is_empty req.authorization_code then some e else none) ≡ none
      → req.authorization_code ≢ ""
  given e h = λ p. is-true-and-false (ap is_empty p) (test-failed _ _ h)

  -- The validations of the handler, one after another.
  pub validate-IsRedeemable :
      (c : Client) (session : AuthnSession) (s t : State ctx) {u : Unit {0}}
      → req.authorization_code ≢ ""
      → validate_authorization_code_grant_request ctx req c session s ≡ (ok u, t)
      → IsRedeemable c session × (t ≡ s)
  unfolding validate_authorization_code_grant_request
  validate-IsRedeemable c session s t given h =
      let (p1, h1) = check-then-ok _ _ s h in
      let (p2, h2) = check-then-ok _ _ s h1 in
      let (p3, h3) = check-then-ok _ _ s h2 in
      let (p4, h4) = check-then-ok _ _ s h3 in
      let (p5, h5) = check-then-ok _ _ s h4 in
      let (p6, h6) = check-then-ok _ _ s h5 in
      let (p7, same) = fault-ok _ s h6 in
      let (proof_given, proven) = dpop-proven c p7 in
      (
        record {
          code_given = given;
          granted = not-false _ (test-failed _ _ p1);
          issued_to = eq-of_!= _ _ (test-failed _ _ p2);
          fresh = not-expired session (test-failed _ _ p3);
          same_redirect = eq-of_!= _ _ (test-failed _ _ p4);
          verified = pkce-verified session p5;
          bound = binding-required p6;
          proof_given = proof_given;
          proven = proven;
        },
        same,
      )

  abbrev pub IsExchanged : State ctx → State ctx → TokenResponse → Type 0
  IsExchanged s t resp =
      (c : Client) × (session : AuthnSession) × (u : State ctx) × (v : State ctx)
      × (authn_session_by_authorization_code ctx req.authorization_code s ≡ found session)
      × (delete_authn_session ctx session.id s ≡ (none, u))
      × (client ctx req.client_authn u ≡ (ok c, v))
      × IsRedeemable c session
      × (issue_for_session ctx req c session v ≡ (ok resp, t))
