-- ===== src/Api/Authorize.antt =====
-- The handlers of the authorization endpoint (internal/authorize/api.go).
use goidc.Base.{String, Option, none, some, List}
use goidc.Api.{
  Connection, Writer, Answer, of_server, pushed, write, write_error, or_error, answer,
  execute_authorize_error_plugin,
}
use goidc.Api.Requests.{Readers, new_authorization_request, new_pushed_authorization_request}
use goidc.Authorize.Flow.{init_auth, continue_auth, push_authorization}
use goidc.Oidc.Context.{Context, State}
use goidc.Oidc.Effect.{Error, Verdict, ok, err, panic, crash}

module _ (ctx : Context) (connection : Connection) where
  open ctx use {request}

  -- HandlerPush
  unfoldable pub push_handler : Readers → Writer → State ctx → Answer ctx
  unfolding answer write new_pushed_authorization_request push_authorization
  push_handler readers w s =
      answer ctx connection (λ resp w. or_error connection (write connection (pushed resp) 201 w)) w
        (push_authorization ctx (new_pushed_authorization_request readers request.form) s)

  abbrev pub unless_handled : Option Error → Writer → Writer
  unless_handled none w = w
  unless_handled (some e) w = write_error connection (of_server e) w

  -- The end of the two handlers below: the plugin gets the error first.
  unfoldable pub with_error_plugin : Writer → Verdict × State ctx → Answer ctx
  unfolding execute_authorize_error_plugin
  with_error_plugin w (ok a, s) = (ok tt, w, s)
  with_error_plugin w (err e, s) =
      (ok tt, unless_handled (execute_authorize_error_plugin ctx e) w, s)
  with_error_plugin w (panic, s) = (panic, w, s)
  with_error_plugin w (crash, s) = (crash, w, s)

  -- Handler, with the query of the request's URL
  unfoldable pub authorize_handler :
      Readers → List (String × String) → Writer → State ctx → Answer ctx
  unfolding with_error_plugin init_auth new_authorization_request
  authorize_handler readers query w s =
      with_error_plugin w (init_auth ctx (new_authorization_request readers query) s)

  -- HandlerCallback, with the path value "callback"
  unfoldable pub callback_handler : String → Writer → State ctx → Answer ctx
  unfolding with_error_plugin continue_auth
  callback_handler callback_id w s = with_error_plugin w (continue_auth ctx callback_id s)
