-- ===== src/UserInfo/Laws.antt =====
-- What an answer of the user info endpoint (internal/userinfo/util.go) says of its token.
use goidc.Base.{
  ◌+◌, ◌≤◌, String, true, false, Option, none, some, ◌≡◌, sym, ap, ◌∙◌, arith, not-false,
}
use goidc.Model.Client.{Client}
use goidc.Model.Session.{GrantSession, has_last_token_expired}
use goidc.Oidc.Context.{Context, State, client_by_id, grant_session_by_token_id}
use goidc.Oidc.Effect.{ok}
use goidc.Oidc.Effect.Laws.{>>=-ok, check-then-ok, fault-then-ok, fault-ok, test-failed, pair-parts}
use goidc.Oidc.Http.{authorization_token}
use goidc.StrUtil.{contains_open_id}
use goidc.Storage.{Fetched, found, failed}
use goidc.Token.Claims.{token_id}
use goidc.Token.Pop.{validate_pop}
use goidc.UserInfo.{
  UserInfoResponse, token_or_error, session_or_error, client_or_error, validate_user_info_request,
  handle_user_info_request, get_user_info_response,
}

module _ (ctx : Context) where
  -- The conditions under which the claims about a session's user are given away.
  pub record IsEntitled (g : GrantSession) (access_token token_type : String) : Type 0 where
    pub fresh : ctx.now ≤ g.last_token_issued_at_timestamp + g.token_lifetime_secs
    pub openid : contains_open_id g.active_scopes ≡ true
    pub possessed :
        validate_pop ctx access_token token_type (record {
          jwk_thumbprint = g.jwk_thumbprint;
          client_certificate_thumbprint = g.client_certificate_thumbprint;
        })
        ≡ ok tt

  fresh-of_test :
      (g : GrantSession)
      → has_last_token_expired ctx.now g ≡ false
      → ctx.now ≤ g.last_token_issued_at_timestamp + g.token_lifetime_secs
  unfolding has_last_token_expired
  fresh-of_test g h = ground arith

  validate-IsEntitled :
      (g : GrantSession) (access_token token_type : String) (s t : State ctx) {u : Unit {0}}
      → validate_user_info_request ctx g access_token token_type s ≡ (ok u, t)
      → IsEntitled g access_token token_type × (t ≡ s)
  unfolding validate_user_info_request
  validate-IsEntitled g access_token token_type s t h =
      let (p1, h1) = check-then-ok _ _ s h in
      let (p2, h2) = check-then-ok _ _ s h1 in
      let (p3, same) = fault-ok _ s h2 in
      (
        record {
          fresh = fresh-of_test g (test-failed _ _ p1);
          openid = not-false _ (test-failed _ _ p2);
          possessed = p3;
        },
        same,
      )

  token-found :
      (o : Option (String × String)) {p : String × String} → token_or_error o ≡ ok p → o ≡ some p
  token-found none h = cc
  token-found (some p) h = cc

  session-found :
      (r : Fetched GrantSession) {g : GrantSession} → session_or_error r ≡ ok g → r ≡ found g
  session-found (failed message) h = cc
  session-found (found g) h = cc

  client-found : (r : Fetched Client) {c : Client} → client_or_error r ≡ ok c → r ≡ found c
  client-found (failed message) h = cc
  client-found (found c) h = cc

  abbrev pub IsAnswered : State ctx → State ctx → UserInfoResponse → Type 0
  IsAnswered s t resp =
      (token : String × String) × (id : String) × (g : GrantSession) × (c : Client)
      × (authorization_token ctx ≡ some token)
      × (token_id ctx token.0 ≡ ok id)
      × (grant_session_by_token_id ctx id s ≡ found g)
      × IsEntitled g token.0 token.1
      × (client_by_id ctx g.client_id s ≡ found c)
      × (get_user_info_response ctx c g s ≡ (ok resp, t))

  -- An answer was made for the session of the token that the Authorization header presents, of
  -- whatever type it names, and the token entitles to it.
  pub user-info-ok :
      (s t : State ctx) (resp : UserInfoResponse)
      → handle_user_info_request ctx s ≡ (ok resp, t)
      → IsAnswered s t resp
  unfolding handle_user_info_request
  user-info-ok s t resp h =
      let (token, p1, h1) = fault-then-ok _ _ s h in
      let (id, p2, h2) = fault-then-ok _ _ s h1 in
      let (g, s3, p3, h3) = >>=-ok _ _ s h2 in
      let (looked, e3) = pair-parts p3 in
      let (w, s4, p4, h4) = >>=-ok _ _ s3 h3 in
      let (entitled, e4) = validate-IsEntitled g token.0 token.1 s3 s4 p4 in
      let (c, s5, p5, h5) = >>=-ok _ _ s4 h4 in
      let (owner, e5) = pair-parts p5 in
      let same : s5 ≡ s = sym e5 ∙ e4 ∙ sym e3 in
      (
        token,
        id,
        g,
        c,
        token-found _ p1,
        p2,
        session-found _ looked,
        entitled,
        ap (client_by_id ctx g.client_id) (sym (e4 ∙ sym e3)) ∙ client-found _ owner,
        ap (get_user_info_response ctx c g) (sym same) ∙ h5,
      )
