-- ===== src/Token/ClientCredentials/Permitted.antt =====
-- What holds of a client credentials grant (internal/token/client_credentials.go) that returned.
use goidc.Base.{String, true, none, ◌≡◌, sym, ap, ◌∙◌, not-false, ◌⊎◌, inl, inr}
use goidc.Authn.{client}
use goidc.Model.Client.{Client, is_grant_type_allowed, are_scopes_allowed}
use goidc.Model.Const.GrantType
use goidc.Oidc.Context.{Context, State, save_grant_session}
use goidc.Oidc.Effect.{Outcome, ok, err, panic, crash}
use goidc.Oidc.Effect.Laws.{>>=-ok, check-ok, check-then-ok, fault-then-ok, test-failed}
use goidc.Token.AuthzCode.Consumed.{stored-ok}
use goidc.Token.Binding.{
  validate_token_binding_is_required, validate_token_binding_request_with_dpop,
}
use goidc.Token.ClientCredentials.{
  validate_client_credentials_grant_request, new_client_credentials_grant_options, respond,
  generate_client_credentials_grant_session, issue_for_client,
  handle_client_credentials_grant_token_creation,
}
use goidc.Token.Make.{make}
use goidc.Token.Make.Bounds.{Keeps-new_uuid}
use goidc.Token.Model.{
  GrantOptions, Token, TokenRequest, TokenResponse, empty_response, new_grant_session,
}

module _ (ctx : Context) (req : TokenRequest) where
  pub record IsPermitted (c : Client) : Type 0 where
    pub granted : is_grant_type_allowed c GrantType.client_credentials ≡ true
    pub scopes_allowed : are_scopes_allowed c ctx.scopes req.scopes ≡ true
    pub proof_valid : validate_token_binding_request_with_dpop ctx c ≡ ok tt
    pub bound : validate_token_binding_is_required ctx ≡ none

  validate-IsPermitted :
      (c : Client) (s t : State ctx) {u : Unit {0}}
      → validate_client_credentials_grant_request ctx req c s ≡ (ok u, t)
      → IsPermitted c × (t ≡ s)
  unfolding validate_client_credentials_grant_request
  validate-IsPermitted c s t h =
      let (p1, h1) = check-then-ok _ _ s h in
      let (p2, h2) = check-then-ok _ _ s h1 in
      let (w, p3, h3) = fault-then-ok _ _ s h2 in
      let (p4, same) = check-ok _ s h3 in
      (
        record {
          granted = not-false _ (test-failed _ _ p1);
          scopes_allowed = not-false _ (test-failed _ _ p2);
          proof_valid = p3;
          bound = p4;
        },
        same,
      )

  respond-ok :
      (token : Token) (o : GrantOptions) (r : Outcome (Unit {0}) × State ctx) (t : State ctx)
      (resp : TokenResponse)
      → respond ctx req token o r ≡ (ok resp, t)
      → (resp ≡ empty_response) ⊎ ((r ≡ (ok tt, t)) × (resp.access_token ≡ token.value))
  respond-ok token o (ok u, s) t resp h = inr (cc, cc)
  respond-ok token o (err e, s) t resp h = inl cc
  respond-ok token o (panic, s) t resp h = cc
  respond-ok token o (crash, s) t resp h = cc

  -- Either the session of the token was saved, or the answer is the empty one.
  issue-saved :
      (token : Token) (o : GrantOptions) (s t : State ctx) (resp : TokenResponse)
      → issue_for_client ctx req token o s ≡ (ok resp, t)
      → (resp ≡ empty_response)
        ⊎ ((uuid : String) × (u : State ctx) × (save_grant_session ctx
                (new_grant_session uuid ctx.now o token)
                u
              ≡ (none, t))
            × (resp.access_token ≡ token.value)
            × (u.grant_sessions ≡ s.grant_sessions))
  unfolding issue_for_client generate_client_credentials_grant_session
  issue-saved token o s t resp h =
      elim (respond-ok token o (generate_client_credentials_grant_session ctx token o s) t resp h) [
        | inl e ↦ inl e
        | inr p ↦
            let (uuid, u, p1, h1) = >>=-ok _ _ s p.0 in
            inr (
              uuid,
              u,
              stored-ok ctx _ u t h1,
              p.1,
              ap (λ r. r.1.grant_sessions) (sym p1) ∙ (Keeps-new_uuid ctx).at s,
            )
      ]

  abbrev pub IsGranted : State ctx → State ctx → TokenResponse → Type 0
  IsGranted s t resp =
      (c : Client) × (o : GrantOptions) × (token : Token) × (u : State ctx) × (v : State ctx)
      × (client ctx req.client_authn s ≡ (ok c, u))
      × IsPermitted c
      × (new_client_credentials_grant_options ctx c req ≡ ok o)
      × (make ctx c o u ≡ (ok token, v))
      × ((resp ≡ empty_response)
          ⊎ ((uuid : String) × (w : State ctx) × (save_grant_session ctx
                  (new_grant_session uuid ctx.now o token) w
                ≡ (none, t))
              × (resp.access_token ≡ token.value)
              × (w.grant_sessions ≡ v.grant_sessions)))

  -- A grant that returned authenticated the client and found that it is permitted. It saved a session
  -- of the token that it returns, or else it returns the empty response.
  pub credentials-ok :
      (s t : State ctx) (resp : TokenResponse)
      → handle_client_credentials_grant_token_creation ctx req s ≡ (ok resp, t)
      → IsGranted s t resp
  unfolding handle_client_credentials_grant_token_creation
  credentials-ok s t resp h =
      let (c, u, p1, h1) = >>=-ok _ _ s h in
      let (w, u', p2, h2) = >>=-ok _ _ u h1 in
      let (permitted, same) = validate-IsPermitted c u u' p2 in
      let (o, p3, h3) = fault-then-ok _ _ u' h2 in
      let (token, v, p4, h4) = >>=-ok _ _ u' h3 in
      (
        c,
        o,
        token,
        u,
        v,
        p1,
        permitted,
        p3,
        ap (make ctx c o) (sym same) ∙ p4,
        issue-saved token o v t resp h4,
      )
