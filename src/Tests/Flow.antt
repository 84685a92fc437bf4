-- ===== src/Tests/Flow.antt =====
-- The authorization endpoint at the sample server.
use goidc.Base.{true, [], ◌∷◌, ◌≡◌, refl}
use goidc.Authorize.Flow.{finish_flow_successfully, authenticate, push_authorization}
use goidc.Authorize.Flow.Finished.{IsFinished, finish-ok}
use goidc.Authorize.Flow.Laws.{IsAuthenticated, authenticate-ok, IsPushed, push-ok}
use goidc.Authorize.Request.{
  AuthorizationRequest, AuthorizationResponse, empty_response, PushedAuthorizationRequest,
  PushedAuthorizationResponse,
}
use goidc.Authorize.Redirect.{redirect_response}
use goidc.Authorize.Redirect.Sent.{IsSent, IsSentTo, redirect-IsSentTo}
use goidc.Authorize.Session.{authn_session_with_par}
use goidc.Authorize.Session.Par.{IsResumed, par-ok}
use goidc.Authorize.Validation.Accepted.{refused-registered}
use goidc.Model.Client.{Client, is_redirect_uri_allowed}
use goidc.Model.Params.{AuthorizationParameters, merge}
use goidc.Model.Session.{AuthnSession}
use goidc.Oidc.Context.{State, Response, authn_session_by_request_uri}
use goidc.Oidc.Effect.{Outcome}
use goidc.Storage.{found}
use goidc.Tests.Runs.{runs}
use goidc.Tests.Sample.{ctx, before, params, shop, session, value_or, credentials}

abbrev overreaching : AuthorizationParameters
overreaching = record params { scopes = "admin" }

refused-registered_example :
    (overreaching ≡ overreaching) × (is_redirect_uri_allowed shop overreaching.redirect_uri ≡ true)
unfolding runs
refused-registered_example =
    refused-registered ctx overreaching shop "invalid_scope" "invalid scope" overreaching refl

abbrev finished : Outcome (Unit {0}) × State ctx
finished = finish_flow_successfully ctx session before

finish-ok_example : IsFinished ctx session before finished.1
unfolding runs
finish-ok_example = finish-ok ctx session before finished.1 refl

abbrev authenticated : Outcome (Unit {0}) × State ctx
authenticated = authenticate ctx session before

authenticate-ok_example : IsAuthenticated ctx session authenticated.1
unfolding runs
authenticate-ok_example = authenticate-ok ctx session before authenticated.1 refl

abbrev push_request : PushedAuthorizationRequest
push_request = record { params = params; client_authn = credentials }

abbrev pushed : Outcome PushedAuthorizationResponse × State ctx
pushed = push_authorization ctx push_request before

abbrev push_response : PushedAuthorizationResponse
push_response = value_or (record { request_uri = ""; expires_in = 0 }) pushed.0

push-ok_example : IsPushed ctx push_request before pushed.1 push_response
unfolding runs
push-ok_example = push-ok ctx push_request before pushed.1 push_response refl

abbrev pushed_session : AuthnSession
pushed_session = record session { params = record params { request_uri = "urn:1" } }

abbrev resuming : AuthorizationRequest
resuming = record { client_id = "shop"; params = record params { request_uri = "urn:1" } }

abbrev resume : Outcome AuthnSession × (Client × State ctx)
resume =
    authn_session_with_par ctx resuming
      (shop, record before { authn_sessions = ("session", pushed_session) ∷ [] })

par-ok_example :
    (started : AuthnSession) × (authn_session_by_request_uri ctx "urn:1"
        (record before { authn_sessions = ("session", pushed_session) ∷ [] })
      ≡ found started)
    × IsResumed ctx resuming started resume.1.0
    × ((value_or session resume.0).params ≡ merge started.params resuming.params)
unfolding runs
par-ok_example =
    par-ok ctx resuming (shop, record before { authn_sessions = ("session", pushed_session) ∷ [] })
      resume.1 (value_or session resume.0) refl

abbrev denial : AuthorizationResponse
denial = record empty_response { error = "access_denied"; state = "xyz" }

redirect-IsSentTo_example :
    (resp : Response) × IsSent ctx resp before.responses
      (redirect_response ctx shop params denial before).1.responses
    × IsSentTo ctx "https://shop.example/back" resp
unfolding runs
redirect-IsSentTo_example =
    redirect-IsSentTo ctx shop params denial before
      (redirect_response ctx shop params denial before).1 refl
