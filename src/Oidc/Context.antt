-- ===== src/Oidc/Context.antt =====
-- Context of internal/oidc/context.go: the configuration, the request, the managers and the
-- libraries of one call, and the state that the call changes. `now` is the reading of the clock,
-- the same throughout a call.
use goidc.Base.{ℕ, String, Option, none, some, List, [], ◌∷◌, ◌==◌, if◌then◌else◌}
use goidc.Model.Client.{Client}
use goidc.Model.Session.{AuthnSession, GrantSession}
use goidc.Storage.{Fetched, found, ClientManager, AuthnSessionManager, GrantSessionManager}
use goidc.Oidc.Config.{Configuration, AuthnPolicy, Request}
use goidc.Oidc.Effect.{Outcome, ok, err, base_error}
use goidc.Oidc.ErrorCode
use goidc.Oidc.Library.{Library}

pub record Context : Type 1 where
  pub config : Configuration
  pub open config use *
  pub request : Request
  pub library : Library
  pub now : ℕ
  pub client_manager : ClientManager
  pub authn_session_manager : AuthnSessionManager
  pub grant_session_manager : GrantSessionManager

-- What a handler sends to the user agent: a redirect to a URL, or a form that posts to one.
pub data Response : Type 0 where
  redirect : String → Response
  form_post : String → List (String × String) → Response

-- The static clients of the configuration are pointers, so that they can change too. `draws` counts
-- the random numbers and the UUIDs that were read.
pub record State (ctx : Context) : Type 0 where
  pub static_clients : List Client
  pub clients : ctx.client_manager.Store
  pub authn_sessions : ctx.authn_session_manager.Store
  pub grant_sessions : ctx.grant_session_manager.Store
  pub draws : ℕ
  pub responses : List Response

abbrev pub Run : Context → Type 0 → Type 0
Run ctx A = State ctx → Outcome A × State ctx

abbrev pub find_client : String → List Client → Option Client
find_client client_id [] = none
find_client client_id (c ∷ cs) = if c.id == client_id then some c else find_client client_id cs

abbrev pub overwrite_client : Client → List Client → List Client
overwrite_client c [] = []
overwrite_client c (d ∷ ds) =
    let rest = overwrite_client c ds in if d.id == c.id then c ∷ ds else d ∷ rest

module _ (ctx : Context) where
  -- Context.Client
  unfoldable pub client_by_id : String → State ctx → Fetched Client
  client_by_id client_id s = elim (find_client client_id s.static_clients) [
    | some c ↦ found c
    | none ↦ ctx.client_manager.get client_id s.clients
  ]

  -- An assignment to fields of a client that `client_by_id` handed out.
  unfoldable pub client_written : Client → State ctx → State ctx
  client_written c s = elim (find_client c.id s.static_clients) [
    | some d ↦ record s { static_clients = overwrite_client c s.static_clients }
    | none ↦ record s { clients = ctx.client_manager.written c s.clients }
  ]

  unfoldable pub save_client : Client → State ctx → Option String × State ctx
  save_client c s =
      let (e, clients) = ctx.client_manager.save c s.clients in (e, record s { clients = clients })

  unfoldable pub delete_client : String → State ctx → Option String × State ctx
  delete_client id s =
      let (e, clients) = ctx.client_manager.delete id s.clients in
      (e, record s { clients = clients })

  unfoldable pub save_grant_session : GrantSession → State ctx → Option String × State ctx
  save_grant_session g s =
      let (e, sessions) = ctx.grant_session_manager.save g s.grant_sessions in
      (e, record s { grant_sessions = sessions })

  unfoldable pub grant_session_by_token_id : String → State ctx → Fetched GrantSession
  grant_session_by_token_id token_id s =
      ctx.grant_session_manager.get_by_token_id token_id s.grant_sessions

  unfoldable pub grant_session_by_refresh_token : String → State ctx → Fetched GrantSession
  grant_session_by_refresh_token token s =
      ctx.grant_session_manager.get_by_refresh_token token s.grant_sessions

  unfoldable pub delete_grant_session : String → State ctx → Option String × State ctx
  delete_grant_session id s =
      let (e, sessions) = ctx.grant_session_manager.delete id s.grant_sessions in
      (e, record s { grant_sessions = sessions })

  unfoldable pub grant_session_written : GrantSession → State ctx → State ctx
  grant_session_written g s = record s {
    grant_sessions = ctx.grant_session_manager.written g s.grant_sessions;
  }

  unfoldable pub save_authn_session : AuthnSession → State ctx → Option String × State ctx
  save_authn_session a s =
      let (e, sessions) = ctx.authn_session_manager.save a s.authn_sessions in
      (e, record s { authn_sessions = sessions })

  unfoldable pub authn_session_by_callback_id : String → State ctx → Fetched AuthnSession
  authn_session_by_callback_id callback_id s =
      ctx.authn_session_manager.get_by_callback_id callback_id s.authn_sessions

  unfoldable pub authn_session_by_authorization_code : String → State ctx → Fetched AuthnSession
  authn_session_by_authorization_code code s =
      ctx.authn_session_manager.get_by_authorization_code code s.authn_sessions

  unfoldable pub authn_session_by_request_uri : String → State ctx → Fetched AuthnSession
  authn_session_by_request_uri request_uri s =
      ctx.authn_session_manager.get_by_request_uri request_uri s.authn_sessions

  unfoldable pub delete_authn_session : String → State ctx → Option String × State ctx
  delete_authn_session id s =
      let (e, sessions) = ctx.authn_session_manager.delete id s.authn_sessions in
      (e, record s { authn_sessions = sessions })

  unfoldable pub authn_session_written : AuthnSession → State ctx → State ctx
  authn_session_written a s = record s {
    authn_sessions = ctx.authn_session_manager.written a s.authn_sessions;
  }

  abbrev pub or_internal_error : Option String × State ctx → Outcome (Unit {0}) × State ctx
  or_internal_error (none, s) = (ok tt, s)
  or_internal_error (some message, s) = (err (base_error ErrorCode.internal_error message), s)

-- Context.Policy: a policy that is not there has no functions.
unfoldable pub policy_by_id : String → List AuthnPolicy → Option AuthnPolicy
policy_by_id policy_id [] = none
policy_by_id policy_id (p ∷ ps) = if p.id == policy_id then some p else policy_by_id policy_id ps
