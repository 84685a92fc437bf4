-- ===== src/Authorize/Flow/Laws.antt =====
-- What the steps of an authorization flow (internal/authorize/authorize.go) leave behind.
use goidc.Base.{
  ◌+◌, String, Bool, true, false, Option, none, some, if◌then◌else◌, ◌≡◌, refl, sym, ap, ◌∙◌, ◌==◌,
  ◌⊎◌, inl, inr, eq-of_==,
}
use goidc.Authn.{client}
use goidc.Authorize.Flow.{
  finish_flow_successfully, stop_flow_in_progress, finish_flow_with_failure, authenticate,
  push_authorization, status_of, not_authenticated, scoped_by,
}
use goidc.Authorize.Flow.Finished.{saved-ok, IsFinished, finish-ok}
use goidc.Authorize.Request.{PushedAuthorizationRequest, PushedAuthorizationResponse, Scoped}
use goidc.Authorize.Session.{pushed_authn_session}
use goidc.Model.Client.{Client}
use goidc.Model.Const.Status
use goidc.Model.Session.{AuthnSession}
use goidc.Oidc.Config.{AuthnPolicy}
use goidc.Oidc.Context.{Context, State, Run, policy_by_id, save_authn_session}
use goidc.Oidc.Effect.{Outcome, ok, err, panic, crash}
use goidc.Oidc.Effect.Laws.{>>=-ok, pure-ok, raise-ok, fault-then-ok}

module _ (ctx : Context) where
  open ctx use {now, request}

  failure-not-ok :
      (session : AuthnSession) (s t : State ctx)
      → finish_flow_with_failure ctx session s ≡ (ok tt, t)
      → ⊥
  unfolding finish_flow_with_failure
  failure-not-ok session s t h = let (w, s1, p1, h1) = >>=-ok _ _ s h in raise-ok _ s1 h1

  status-known :
      (o : Option AuthnPolicy) (session : AuthnSession) {answer : String × AuthnSession}
      → status_of ctx o session ≡ ok answer
      → (policy : AuthnPolicy) × (o ≡ some policy) × (policy.authenticate request session ≡ answer)
  status-known none session h = cc
  status-known (some policy) session h = (policy, refl, cc)

  branch-ok :
      (b : Bool) (m n : Run ctx (Unit {0})) (s t : State ctx)
      → (if b then m else n) s ≡ (ok tt, t)
      → ((b ≡ true) × (m s ≡ (ok tt, t))) ⊎ ((b ≡ false) × (n s ≡ (ok tt, t)))
  branch-ok true m n s t h = inl (refl, h)
  branch-ok false m n s t h = inr (refl, h)

  stopped-ok :
      (session : AuthnSession) (s t : State ctx)
      → stop_flow_in_progress ctx session s ≡ (ok tt, t)
      → save_authn_session ctx session s ≡ (none, t)
  unfolding stop_flow_in_progress
  stopped-ok session s t h = saved-ok ctx session s t h

  step-ok :
      (status : String) (session : AuthnSession) (s t : State ctx)
      → (if status == Status.success
            then finish_flow_successfully ctx session
            else if status == Status.in_progress
            then stop_flow_in_progress ctx session
            else finish_flow_with_failure ctx session)
          s
        ≡ (ok tt, t)
      → ((status ≡ Status.success) × IsFinished ctx session s t)
        ⊎ ((status ≡ Status.in_progress) × (save_authn_session ctx session s ≡ (none, t)))
  step-ok status session s t h = elim (branch-ok (status == Status.success) _ _ s t h) [
    | inl p ↦ inl (eq-of_== _ _ p.0, finish-ok ctx session s t p.1)
    | inr q ↦ elim (branch-ok (status == Status.in_progress) _ _ s t q.1) [
      | inl p ↦ inr (eq-of_== _ _ p.0, stopped-ok session s t p.1)
      | inr r ↦ absurd (failure-not-ok session s t r.1)
    ]
  ]

  -- The session's policy has answered that the flow is in progress, and the session was saved, or
  -- that it succeeded, and the flow was finished.
  abbrev pub IsAuthenticated : AuthnSession → State ctx → Type 0
  IsAuthenticated session t =
      (policy : AuthnPolicy) × (status : String) × (session' : AuthnSession) × (u : State ctx)
      × (policy_by_id session.policy_id ctx.policies ≡ some policy)
      × (policy.authenticate request session ≡ (status, session'))
      × (((status ≡ Status.success) × IsFinished ctx session' u t)
          ⊎ ((status ≡ Status.in_progress) × (save_authn_session ctx session' u ≡ (none, t))))

  -- An authentication step returns no error only if the session's policy is there and answers that
  -- it succeeded or is in progress.
  pub authenticate-ok :
      (session : AuthnSession) (s t : State ctx)
      → authenticate ctx session s ≡ (ok tt, t)
      → IsAuthenticated session t
  unfolding authenticate
  authenticate-ok session s t h =
      let (answer, p1, h1) = fault-then-ok _ _ s h in
      let (policy, known, asked) = status-known _ session p1 in
      let (w, u, p2, h2) = >>=-ok _ _ s h1 in
      (policy, answer.0, answer.1, u, known, asked, step-ok answer.0 answer.1 u t h2)

  not_authenticated-ok :
      (r : Outcome Client × State ctx) {c : Client} {t : State ctx}
      → not_authenticated ctx r ≡ (ok c, t)
      → r ≡ (ok c, t)
  not_authenticated-ok (ok b, s) h = h
  not_authenticated-ok (err e, s) h = cc
  not_authenticated-ok (panic, s) h = cc
  not_authenticated-ok (crash, s) h = cc

  scoped-ok :
      (c : Client) (m : Scoped ctx AuthnSession) (s t : State ctx) {session : AuthnSession}
      → scoped_by ctx c m s ≡ (ok session, t)
      → (c' : Client) × (m (c, s) ≡ (ok session, (c', t)))
  scoped-ok c m s t h = ((m (c, s)).1.0, λ i. ((h i).0, ((m (c, s)).1.0, (h i).1)))

  abbrev pub IsPushed :
      PushedAuthorizationRequest → State ctx → State ctx → PushedAuthorizationResponse → Type 0
  IsPushed req s t resp =
      (c : Client) × (c' : Client) × (session : AuthnSession) × (u : State ctx) × (v : State ctx)
      × (client ctx req.client_authn s ≡ (ok c, u))
      × (pushed_authn_session ctx req (c, u) ≡ (ok session, (c', v)))
      × (save_authn_session ctx session v ≡ (none, t))
      × (resp.request_uri ≡ session.request_uri)
      × (session.expires_at_timestamp ≡ now + resp.expires_in)

  pushed-expires :
      (req : PushedAuthorizationRequest) (cs cs' : Client × State ctx) (session : AuthnSession)
      → pushed_authn_session ctx req cs ≡ (ok session, cs')
      → session.expires_at_timestamp ≡ now + ctx.par_lifetime_secs
  unfolding pushed_authn_session
  pushed-expires req cs cs' session h =
      let (c, s1, p1, h1) = >>=-ok _ _ cs h in
      let (made, s2, p2, h2) = >>=-ok _ _ s1 h1 in
      let (drawn, s3, p3, h3) = >>=-ok _ _ s2 h2 in
      let (id, p4, h4) = fault-then-ok _ _ s3 h3 in
      let (e, same) = pure-ok _ s3 h4 in ap (λ x. x.expires_at_timestamp) e

  -- A pushed request that is answered came from a client that authenticated, and its session was
  -- saved under the URI of the answer, for as long as the answer says.
  pub push-ok :
      (req : PushedAuthorizationRequest) (s t : State ctx) (resp : PushedAuthorizationResponse)
      → push_authorization ctx req s ≡ (ok resp, t)
      → IsPushed req s t resp
  unfolding push_authorization
  push-ok req s t resp h =
      let (c, u, p1, h1) = >>=-ok _ _ s h in
      let (session, v, p2, h2) = >>=-ok _ _ u h1 in
      let (w, x, p3, h3) = >>=-ok _ _ v h2 in
      let (e, same) = pure-ok _ x h3 in
      let (c', made) = scoped-ok c (pushed_authn_session ctx req) u v p2 in
      (
        c,
        c',
        session,
        u,
        v,
        not_authenticated-ok _ p1,
        made,
        saved-ok ctx session v x p3 ∙ ap (λ y. (none, y)) (sym same),
        ap (λ r. r.request_uri) e,
        pushed-expires req (c, u) (c', v) session made ∙ ap (λ r. now + r.expires_in) (sym e),
      )
