-- ===== src/Authorize/Session/Par.antt =====
-- What holds of a session that a pushed request started (internal/authorize/session.go).
use goidc.Base.{◌≤◌, String, false, Option, none, some, ◌≡◌, sym, ap, ◌∙◌, arith, eq-of_!=, subst}
use goidc.Authorize.Request.{AuthorizationRequest}
use goidc.Authorize.Checks.{validate_request_with_par, validate_in_with_out_params, checked}
use goidc.Authorize.Session.{delete_if_refused, refused_by, par_session, authn_session_with_par}
use goidc.Authorize.Validation.{validate_params_authorize}
use goidc.Authorize.Validation.Accepted.{IsAccepted, validated-IsAccepted}
use goidc.Model.Client.{Client}
use goidc.Model.Params.{AuthorizationParameters, merge}
use goidc.Model.Session.{AuthnSession, update_params, authn_session_is_expired}
use goidc.Oidc.Context.{Context, State, authn_session_by_request_uri}
use goidc.Oidc.Effect.{Error, Outcome, ok, err, panic, crash}
use goidc.Oidc.Effect.Laws.{>>=-ok, gets-ok, pure-ok, check-ok, check-then-ok, test-failed}
use goidc.Storage.{found}

module _ (ctx : Context) where
  refused-not-ok :
      (e : Error) (c : Client) (r : Option String × State ctx) {u : Unit {0}}
      {cs : Client × State ctx}
      → refused_by ctx e c r ≡ (ok u, cs)
      → ⊥
  refused-not-ok e c (none, s) h = cc
  refused-not-ok e c (some message, s) h = cc

  kept-ok :
      (session : AuthnSession) (r : Outcome (Unit {0}) × (Client × State ctx)) {u : Unit {0}}
      {cs : Client × State ctx}
      → delete_if_refused ctx session r ≡ (ok u, cs)
      → r ≡ (ok u, cs)
  kept-ok session (ok v, ds) h = h
  kept-ok session (err e, ds) h = absurd (refused-not-ok e ds.0 _ h)
  kept-ok session (panic, ds) h = cc
  kept-ok session (crash, ds) h = cc

  session-found :
      (request_uri : String) (cs ds : Client × State ctx) (session : AuthnSession)
      → par_session ctx request_uri cs ≡ (ok session, ds)
      → (authn_session_by_request_uri ctx request_uri cs.1 ≡ found session) × (ds ≡ cs)
  session-found request_uri cs ds session h = (ground arith, ground arith)

  checked-ok :
      (validate : Client → Option Error) (cs ds : Client × State ctx) {u : Unit {0}}
      → checked ctx validate cs ≡ (ok u, ds)
      → (validate cs.0 ≡ none) × (ds ≡ cs)
  checked-ok validate cs ds h =
      let (c, es, p1, h1) = >>=-ok _ _ cs h in
      let (e, same) = gets-ok _ cs p1 in
      let (p2, same') = check-ok _ es h1 in (ap validate (sym e) ∙ p2, same' ∙ same)

  in_with_out-ok :
      (inside outside : AuthorizationParameters) (cs ds : Client × State ctx) {u : Unit {0}}
      → validate_in_with_out_params ctx inside outside cs ≡ (ok u, ds)
      → IsAccepted ctx (merge inside outside) ds.0
  unfolding validate_in_with_out_params
  in_with_out-ok inside outside cs ds h =
      let (w1, es, p1, h1) = >>=-ok _ _ cs h in
      let (w2, fs, p2, h2) = >>=-ok _ _ es h1 in
      let (p3, same) = check-ok _ fs h2 in
      let (accepted, same') = checked-ok _ es fs p2 in
      validated-IsAccepted ctx (merge inside outside) ds.0 (
        ap (λ x. validate_params_authorize ctx (merge inside outside) x.0) (same ∙ same')
        ∙ accepted)

  -- What a request that refers to a pushed session has passed.
  pub record IsResumed (req : AuthorizationRequest) (session : AuthnSession) (c : Client)
      : Type 0 where
    pub same_client : session.client_id ≡ req.client_id
    pub fresh : ctx.now ≤ session.expires_at_timestamp
    pub accepted : IsAccepted ctx (merge session.params req.params) c

  fresh-of_test :
      (session : AuthnSession)
      → authn_session_is_expired ctx.now session ≡ false
      → ctx.now ≤ session.expires_at_timestamp
  unfolding authn_session_is_expired
  fresh-of_test session h = ground arith

  validate-IsResumed :
      (req : AuthorizationRequest) (session : AuthnSession) (cs ds : Client × State ctx)
      {u : Unit {0}}
      → validate_request_with_par ctx req session cs ≡ (ok u, ds)
      → IsResumed req session ds.0
  unfolding validate_request_with_par
  validate-IsResumed req session cs ds h =
      let (p1, h1) = check-then-ok _ _ cs h in
      let (w, es, p2, h2) = >>=-ok _ _ cs h1 in
      let (p3, same) = check-ok _ es h2 in
      record {
        same_client = eq-of_!= _ _ (test-failed _ _ p1);
        fresh = fresh-of_test session (test-failed _ _ p3);
        accepted =
            subst (λ x. IsAccepted ctx (merge session.params req.params) x.0) (sym same)
              (in_with_out-ok session.params req.params cs es p2);
      }

  -- A request that refers to a pushed session continues it only if the session was pushed by the same
  -- client and has not expired, and if the parameters of both together are accepted from the client;
  -- the session then has those parameters.
  pub par-ok :
      (req : AuthorizationRequest) (cs ds : Client × State ctx) (resumed : AuthnSession)
      → authn_session_with_par ctx req cs ≡ (ok resumed, ds)
      → (session : AuthnSession) × (authn_session_by_request_uri ctx req.request_uri cs.1
          ≡ found session)
        × IsResumed req session ds.0
        × (resumed.params ≡ merge session.params req.params)
  unfolding authn_session_with_par update_params
  par-ok req cs ds resumed h =
      let (session, es, p1, h1) = >>=-ok _ _ cs h in
      let (looked, same) = session-found req.request_uri cs es session p1 in
      let (w, fs, p2, h2) = >>=-ok _ _ es h1 in
      let (w3, gs, p3, h3) = >>=-ok _ _ fs h2 in
      let (e, same') = pure-ok _ gs h3 in
      let valid = validate-IsResumed req session es fs (kept-ok session _ p2) in
      (
        session,
        looked,
        subst (λ x. IsResumed req session x) (ap (λ x. x.1.0) p3 ∙ sym (ap (λ x. x.0) same')) valid,
        ap (λ x. x.params) e,
      )
