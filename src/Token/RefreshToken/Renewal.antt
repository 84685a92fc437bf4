-- ===== src/Token/RefreshToken/Renewal.antt =====
-- What holds of a renewal (internal/token/refresh_token.go) that returned tokens.
use goidc.Base.{
  ◌≤◌, String, Bool, true, false, is_empty, not, ◌≡◌, sym, ap, ◌∙◌, arith, ◌||◌, ◌&&◌, eq-of_!=,
  not-false,
}
use goidc.Authn.{client}
use goidc.Model.Client.{Client, is_grant_type_allowed}
use goidc.Model.Const.GrantType
use goidc.Model.Session.{GrantSession, grant_session_is_expired}
use goidc.Oidc.Context.{Context, State, grant_session_by_refresh_token}
use goidc.Oidc.Effect.{ok, pure, raise, ◌>>=◌}
use goidc.Oidc.Effect.Laws.{>>=-ok, pure-ok, check-then-ok, fault-then-ok, fault-ok, test-failed}
use goidc.Storage.{found}
use goidc.Token.AuthzCode.{receive}
use goidc.Token.Model.{TokenRequest, TokenResponse}
use goidc.Token.RefreshToken.{
  contains_all_scopes, validate_refresh_token_proof_of_possession, delete_expired,
  validate_refresh_token_grant_request, get_grant_session_by_refresh_token, renew,
  get_authenticated_client_and_grant_session, handle_refresh_token_grant_token_creation,
}

module _ (ctx : Context) (req : TokenRequest) where
  -- The conditions under which a session's tokens are renewed.
  pub record IsRenewable (c : Client) (g : GrantSession) : Type 0 where
    pub granted : is_grant_type_allowed c GrantType.refresh_token ≡ true
    pub issued_to : c.id ≡ g.client_id
    pub fresh : ctx.now ≤ g.expires_at_timestamp
    pub within : (is_empty req.scopes || contains_all_scopes g.granted_scopes req.scopes) ≡ true
    pub possessed : validate_refresh_token_proof_of_possession ctx c g ≡ ok tt

  fresh-of_test :
      (g : GrantSession)
      → grant_session_is_expired ctx.now g ≡ false
      → ctx.now ≤ g.expires_at_timestamp
  unfolding grant_session_is_expired
  fresh-of_test g h = ground arith

  within-of_test : (a b : Bool) → (not a && not b) ≡ false → (a || b) ≡ true
  within-of_test a b h = ground arith

  not-deleted :
      (g : GrantSession) (s t : State ctx) {u : Unit {0}}
      → delete_expired ctx g s ≡ (ok u, t)
      → (grant_session_is_expired ctx.now g ≡ false) × (t ≡ s)
  unfolding delete_expired ◌>>=◌ raise pure
  not-deleted g s t h = (ground arith, ground arith)

  validate-IsRenewable :
      (c : Client) (g : GrantSession) (s t : State ctx) {u : Unit {0}}
      → validate_refresh_token_grant_request ctx req c g s ≡ (ok u, t)
      → IsRenewable c g × (t ≡ s)
  unfolding validate_refresh_token_grant_request
  validate-IsRenewable c g s t h =
      let (p1, h1) = check-then-ok _ _ s h in
      let (p2, h2) = check-then-ok _ _ s h1 in
      let (w, v, p3, h3) = >>=-ok _ _ s h2 in
      let (fresh, kept) = not-deleted g s v p3 in
      let (p4, h4) = check-then-ok _ _ v h3 in
      let (p5, same) = fault-ok _ v h4 in
      (
        record {
          granted = not-false _ (test-failed _ _ p1);
          issued_to = eq-of_!= _ _ (test-failed _ _ p2);
          fresh = fresh-of_test g fresh;
          within = within-of_test _ _ (test-failed _ _ p4);
          possessed = p5;
        },
        same ∙ kept,
      )

  message-received :
      (token : String) (s : State ctx) (g : GrantSession)
      → receive (get_grant_session_by_refresh_token ctx token s) ≡ ok g
      → grant_session_by_refresh_token ctx token s ≡ found g
  unfolding get_grant_session_by_refresh_token
  message-received token s g h = ground arith

  parties-ok :
      (s t : State ctx) (p : Client × GrantSession)
      → get_authenticated_client_and_grant_session ctx req s ≡ (ok p, t)
      → (grant_session_by_refresh_token ctx req.refresh_token s ≡ found p.1)
        × (client ctx req.client_authn s ≡ (ok p.0, t))
  unfolding get_authenticated_client_and_grant_session
  parties-ok s t p h =
      let (c, v, p1, h1) = >>=-ok _ _ s h in
      let (g, p2, h2) = fault-then-ok _ _ v h1 in
      let (e, same) = pure-ok _ v h2 in
      (
        message-received req.refresh_token s g p2 ∙ ap (λ q. found q.1) (sym e),
        p1 ∙ λ i. (ok (sym e i).0, sym same i),
      )

  abbrev pub IsRenewed : State ctx → State ctx → TokenResponse → Type 0
  IsRenewed s t resp =
      (c : Client) × (g : GrantSession) × (v : State ctx) × (grant_session_by_refresh_token ctx
          req.refresh_token s
        ≡ found g)
      × (client ctx req.client_authn s ≡ (ok c, v))
      × IsRenewable c g
      × (renew ctx req c g v ≡ (ok resp, t))

  -- A handler that returned tokens found the session of the refresh token, authenticated the client
  -- and found the session renewable by that client; the tokens are then renewed for the session.
  pub renewal-ok :
      (s t : State ctx) (resp : TokenResponse)
      → handle_refresh_token_grant_token_creation ctx req s ≡ (ok resp, t)
      → IsRenewed s t resp
  unfolding handle_refresh_token_grant_token_creation
  renewal-ok s t resp h =
      let (p1, h1) = check-then-ok _ _ s h in
      let (p, v, p2, h2) = >>=-ok _ _ s h1 in
      let (w, v', p3, h3) = >>=-ok _ _ v h2 in
      let (looked, authenticated) = parties-ok s v p p2 in
      let (renewable, same) = validate-IsRenewable p.0 p.1 v v' p3 in
      (p.0, p.1, v, looked, authenticated, renewable, ap (renew ctx req p.0 p.1) (sym same) ∙ h3)
