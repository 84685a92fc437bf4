-- ===== src/Authorize/Flow/Frame.antt =====
-- The end of an authorization flow (internal/authorize/authorize.go and redirect.go) leaves the
-- authorization sessions alone.
use goidc.Base.{String, Bool, Option, none, some, ◌≡◌, refl, ap, ◌∙◌, if◌then◌else◌}
use goidc.Authorize.Flow.{
  redirected_by, or_redirect, with_token, with_id_token, generate_implicit_grant_session,
}
use goidc.Authorize.Redirect.{
  respond, rendered, redirect_response, create_jarm_response, sign_jarm_response,
}
use goidc.Authorize.Request.{AuthorizationResponse}
use goidc.Model.Client.{Client}
use goidc.Model.Params.{AuthorizationParameters}
use goidc.Model.Session.{AuthnSession}
use goidc.Oidc.Context.{Context, State, Run, Response, redirect, form_post}
use goidc.Oidc.Effect.{Outcome, ok, err, panic, crash}
use goidc.Oidc.Effect.Frame.{Keeps, keeps_rules}
use goidc.Token.AuthzCode.Consumed.{Keeps-store, Keeps-encrypt_for_client, Keeps-make_id_token}
use goidc.Token.Frame.{sessions, Keeps-make, Keeps-new_uuid}
use goidc.Token.Model.{GrantOptions, Token}

module _ (ctx : Context) where
  redirected-state :
      {A : Type 0} (params : AuthorizationParameters) (r : Outcome A × State ctx)
      → (redirected_by params r).1 ≡ r.1
  redirected-state params (ok a, s) = refl
  redirected-state params (err e, s) = refl
  redirected-state params (panic, s) = refl
  redirected-state params (crash, s) = refl

  pub Keeps-or_redirect :
      {A : Type 0} (params : AuthorizationParameters) (m : Run ctx A)
      → Keeps (sessions ctx) m
      → Keeps (sessions ctx) (or_redirect ctx params m)
  Keeps-or_redirect params m k = record {
    at = λ s. ap (sessions ctx) (redirected-state params (m s)) ∙ k.at s;
  }

  Keeps-implicit :
      (token : Token) (o : GrantOptions)
      → Keeps (sessions ctx) (generate_implicit_grant_session ctx token o)
  unfolding generate_implicit_grant_session
  Keeps-implicit token o = search (keeps_rules, Keeps-new_uuid, Keeps-store) depth 9

  pub Keeps-with_token :
      (c : Client) (session : AuthnSession) (response : AuthorizationResponse)
      → Keeps (sessions ctx) (with_token ctx c session response)
  Keeps-with_token c session response =
      search (keeps_rules, Keeps-make ctx, Keeps-implicit) depth 12

  pub Keeps-with_id_token :
      (c : Client) (session : AuthnSession) (response : AuthorizationResponse)
      → Keeps (sessions ctx) (with_id_token ctx c session response)
  Keeps-with_id_token c session response = search (keeps_rules, Keeps-make_id_token ctx) depth 9

  rendered-sessions :
      (o : Option String) (resp : Response) (s : State ctx)
      → (rendered ctx resp o s).1.authn_sessions ≡ s.authn_sessions
  rendered-sessions none resp s = refl
  rendered-sessions (some message) resp s = refl

  posted-sessions :
      (b : Bool) (resp : Response) (o : Option String) (s : State ctx)
      → (if b then (ok tt, s) else rendered ctx resp o s).1.authn_sessions ≡ s.authn_sessions
  posted-sessions goidc.Base.true resp o s = refl
  posted-sessions goidc.Base.false resp o s = rendered-sessions o resp s

  Keeps-respond : (resp : Response) → Keeps (sessions ctx) (respond ctx resp)
  unfolding respond
  Keeps-respond (redirect url) = record { at = λ s. refl }
  Keeps-respond (form_post uri ps) = record {
    at = λ s.
        posted-sessions ctx.request.is_done (form_post uri ps) (ctx.library.execute_template uri ps)
          s;
  }

  pub Keeps-redirect_response :
      (c : Client) (params : AuthorizationParameters) (response : AuthorizationResponse)
      → Keeps (sessions ctx) (redirect_response ctx c params response)
  unfolding redirect_response create_jarm_response sign_jarm_response
  Keeps-redirect_response c params response =
      search (keeps_rules, Keeps-respond, Keeps-encrypt_for_client ctx) depth 16
