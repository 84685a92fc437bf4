-- ===== src/Authorize/Flow/Finished.antt =====
-- What a flow that finished successfully (finishFlowSuccessfully and authorizeAuthnSession of
-- internal/authorize/authorize.go) leaves behind.
use goidc.Base.{
  subst, ◌&&◌, ◌+◌, String, Bool, true, false, none, if◌then◌else◌, ◌≡◌, refl, sym, ap, ◌∙◌, arith,
}
use goidc.Authorize.Flow.{redirected_by, authorize_authn_session, finish_flow_successfully, saved}
use goidc.Authorize.Flow.{text_or_internal, with_token, with_id_token, stored_client, deleted}
use goidc.Authorize.Flow.Frame.{
  Keeps-or_redirect, Keeps-with_token, Keeps-with_id_token, Keeps-redirect_response,
}
use goidc.Authorize.Redirect.{redirect_response}
use goidc.StrUtil.Random.Bounds.{IsRandom}
use goidc.StrUtil.{contains_open_id}
use goidc.Storage.{Fetched, found, failed}
use goidc.Token.Frame.{Keeps-random_text}
use goidc.Token.Make.{random_text}
use goidc.Token.Make.Bounds.{text-IsRandom}
use goidc.Model.Const.ResponseType
use goidc.Authorize.Request.{
  AuthorizationResponse, authorization_code_lifetime_secs, authorization_code_length,
  empty_response,
}
use goidc.Model.Client.{Client}
use goidc.Model.Params.{AuthorizationParameters}
use goidc.Model.Session.{AuthnSession}
use goidc.Oidc.Context.{
  Context, State, Run, client_by_id, save_authn_session, delete_authn_session,
  authn_session_written,
}
use goidc.Oidc.Effect.{pure, modify, Outcome, ok, err, panic, crash}
use goidc.Oidc.Effect.Laws.{>>=-ok, pure-ok, fault-then-ok}

redirected-ok :
    {A S : Type 0} (params : AuthorizationParameters) (r : Outcome A × S) {a : A} {t : S}
    → redirected_by params r ≡ (ok a, t)
    → r ≡ (ok a, t)
redirected-ok params (ok b, s) h = h
redirected-ok params (err e, s) h = cc
redirected-ok params (panic, s) h = cc
redirected-ok params (crash, s) h = cc

text-found :
    (ctx : Context) (r : Fetched String) {text : String}
    → text_or_internal ctx r ≡ ok text
    → r ≡ found text
text-found ctx (failed message) h = cc
text-found ctx (found a) h = cc

module _ (ctx : Context) where
  open ctx use {now}

  -- `authorized` is `session` with an authorization code that was just made, which lasts for a minute.
  pub record IsAuthorized (session authorized : AuthnSession) : Type 0 where
    pub same_id : authorized.id ≡ session.id
    pub same_client : authorized.client_id ≡ session.client_id
    pub same_subject : authorized.subject ≡ session.subject
    pub same_scopes : authorized.granted_scopes ≡ session.granted_scopes
    pub same_params : authorized.params ≡ session.params
    pub code_made : IsRandom authorization_code_length authorized.authorization_code
    pub expires : authorized.expires_at_timestamp ≡ now + authorization_code_lifetime_secs

  pub saved-ok :
      (session : AuthnSession) (s t : State ctx) {u : Unit {0}}
      → saved ctx session s ≡ (ok u, t)
      → save_authn_session ctx session s ≡ (none, t)
  unfolding save_authn_session
  saved-ok session s t h = ground arith

  -- The sessions that the code is saved into: those of `s`, without the session where the response type
  -- has no code.
  abbrev pub sessions_before : Bool → AuthnSession → State ctx → ctx.authn_session_manager.Store
  sessions_before b session s =
      if b
      then s.authn_sessions
      else (ctx.authn_session_manager.delete session.id s.authn_sessions).1

  -- The session is written through its pointer and saved, and nothing else happens to the sessions.
  abbrev pub IsSavedAlone : AuthnSession → AuthnSession → State ctx → State ctx → Type 0
  IsSavedAlone session authorized s t =
      ctx.authn_session_manager.save authorized (
        ctx.authn_session_manager.written authorized
          (sessions_before (ResponseType.has session.response_type ResponseType.code) session s))
      ≡ (none, t.authn_sessions)

  before-code :
      (b : Bool) (session : AuthnSession) (s t : State ctx) {u : Unit {0}}
      → (if b then pure tt else deleted ctx session) s ≡ (ok u, t)
      → t.authn_sessions ≡ sessions_before b session s
  unfolding pure delete_authn_session
  before-code true session s t h = ap (λ x. x.1.authn_sessions) (sym h)
  before-code false session s t h = ground arith

  save-parts :
      (session : AuthnSession) (s t : State ctx)
      → save_authn_session ctx session s ≡ (none, t)
      → ctx.authn_session_manager.save session s.authn_sessions ≡ (none, t.authn_sessions)
  unfolding save_authn_session
  save-parts session s t h = ground arith

  written-after :
      (session : AuthnSession) (s t : State ctx) {u : Unit {0}}
      → modify (authn_session_written ctx session) s ≡ (ok u, t)
      → t.authn_sessions ≡ ctx.authn_session_manager.written session s.authn_sessions
  unfolding modify authn_session_written
  written-after session s t h = ap (λ x. x.1.authn_sessions) (sym h)

  authorize-ok :
      (session authorized : AuthnSession) (s t : State ctx)
      → authorize_authn_session ctx session s ≡ (ok authorized, t)
      → IsAuthorized session authorized × IsSavedAlone session authorized s t
  unfolding authorize_authn_session
  authorize-ok session authorized s t h =
      let (w, s1, p1, h1) = >>=-ok _ _ s h in
      let (drawn, s2, p2, h2) = >>=-ok _ _ s1 h1 in
      let (code, p3, h3) = fault-then-ok _ _ s2 h2 in
      let (w4, s4, p4, h4) = >>=-ok _ _ s2 h3 in
      let (w5, s5, p5, h5) = >>=-ok _ _ s4 h4 in
      let (e, same) = pure-ok _ s5 h5 in
      let drawn_code : random_text ctx authorization_code_length s1 ≡ (ok (found code), s2) =
        p2 ∙ ap (λ x. (ok x, s2)) (text-found ctx drawn p3) in
      let kept : s2.authn_sessions ≡ s1.authn_sessions =
        ap (λ x. x.1.authn_sessions) (sym p2)
        ∙ (Keeps-random_text ctx authorization_code_length).at s1 in
      let given : s4.authn_sessions
          ≡ ctx.authn_session_manager.written authorized (
              sessions_before (ResponseType.has session.response_type ResponseType.code) session
                s) =
        written-after _ s2 s4 p4 ∙ (λ i.
          ctx.authn_session_manager.written (sym e i) ((kept ∙ before-code _ session s s1 p1) i)) in
      (
        record {
          same_id = ap (λ x. x.id) e;
          same_client = ap (λ x. x.client_id) e;
          same_subject = ap (λ x. x.subject) e;
          same_scopes = ap (λ x. x.granted_scopes) e;
          same_params = ap (λ x. x.params) e;
          code_made =
              subst (IsRandom authorization_code_length) (sym (ap (λ x. x.authorization_code) e))
                (text-IsRandom ctx authorization_code_length s1 s2 code drawn_code);
          expires = ap (λ x. x.expires_at_timestamp) e;
        },
        ap (ctx.authn_session_manager.save authorized) (sym given)
            ∙ ap (λ x. ctx.authn_session_manager.save x s4.authn_sessions) e
            ∙ save-parts _ s4 s5 (saved-ok _ s4 s5 p5)
            ∙ ap (λ x. (none, x.authn_sessions)) (sym same),
      )

  -- The response has the code and the state of the session.
  abbrev pub AnswersFor : AuthnSession → AuthorizationResponse → Type 0
  AnswersFor session response =
      (response.authorization_code ≡ session.authorization_code) × (response.state ≡ session.state)

  with_token-AnswersFor :
      (b : Bool) (m : Run ctx AuthorizationResponse) (session : AuthnSession)
      (given response : AuthorizationResponse) (s t : State ctx)
      → AnswersFor session given
      → ((u v : State ctx) (r : AuthorizationResponse) → m u ≡ (ok r, v) → AnswersFor session r)
      → (if b then m else pure given) s ≡ (ok response, t)
      → AnswersFor session response
  with_token-AnswersFor true m session given response s t a f h = f s t response h
  with_token-AnswersFor false m session given response s t a f h =
      let (e, same) = pure-ok given s h in subst (AnswersFor session) (sym e) a

  token-answers :
      (c : Client) (session : AuthnSession) (given response : AuthorizationResponse)
      (s t : State ctx)
      → AnswersFor session given
      → with_token ctx c session given s ≡ (ok response, t)
      → AnswersFor session response
  token-answers c session given response s t a h =
      with_token-AnswersFor (ResponseType.has session.response_type ResponseType.token) _ session
        given response s t a
        (λ u v r k.
          let (o, p1, k1) = fault-then-ok _ _ u k in
          let (token, u2, p2, k2) = >>=-ok _ _ u k1 in
          let (w, u3, p3, k3) = >>=-ok _ _ u2 k2 in
          let (e, same) = pure-ok _ u3 k3 in subst (AnswersFor session) (sym e) a)
        h

  id_token-answers :
      (c : Client) (session : AuthnSession) (given response : AuthorizationResponse)
      (s t : State ctx)
      → AnswersFor session given
      → with_id_token ctx c session given s ≡ (ok response, t)
      → AnswersFor session response
  id_token-answers c session given response s t a h =
      with_token-AnswersFor
        (contains_open_id session.granted_scopes
          && ResponseType.has session.response_type ResponseType.id_token)
        _ session given response s t a
        (λ u v r k.
          let (made, u2, p2, k2) = >>=-ok _ _ u k in
          let (e, same) = pure-ok _ u2 k2 in subst (AnswersFor session) (sym e) a)
        h

  client-found :
      (id : String) (s t : State ctx) (c : Client)
      → stored_client ctx id s ≡ (ok c, t)
      → (client_by_id ctx id s ≡ found c) × (t ≡ s)
  client-found id s t c h = (ground arith, ground arith)

  -- The session was authorized and saved, and its client was answered for it.
  abbrev pub IsFinished : AuthnSession → State ctx → State ctx → Type 0
  IsFinished session s t =
      (authorized : AuthnSession) × (c : Client) × (response : AuthorizationResponse) × (w : State
        ctx)
      × IsAuthorized session authorized
      × IsSavedAlone session authorized s t
      × (client_by_id ctx session.client_id s ≡ found c)
      × AnswersFor authorized response
      × (redirect_response ctx c authorized.params response w ≡ (ok tt, t))

  -- A flow that finished successfully saved the session with a code that was just made and lasts for
  -- a minute, which is all that happens to the sessions, and sent a response with the code and the
  -- state to the client of the session.
  pub finish-ok :
      (session : AuthnSession) (s t : State ctx)
      → finish_flow_successfully ctx session s ≡ (ok tt, t)
      → IsFinished session s t
  unfolding finish_flow_successfully
  finish-ok session s t h =
      let (c, s1, p1, h1) = >>=-ok _ _ s h in
      let (authorized, s2, p2, h2) = >>=-ok _ _ s1 h1 in
      let (with_access, s3, p3, h3) = >>=-ok _ _ s2 h2 in
      let (response, s4, p4, h4) = >>=-ok _ _ s3 h3 in
      let (known, first) =
        client-found session.client_id s s1 c (redirected-ok session.params _ p1) in
      let (a, saved) = authorize-ok session authorized s1 s2 (redirected-ok session.params _ p2) in
      let begun : AuthorizationResponse = record empty_response {
        authorization_code = authorized.authorization_code;
        state = authorized.state;
      } in
      let accessed =
        token-answers c authorized begun with_access s2 s3 (refl, refl)
          (redirected-ok session.params _ p3) in
      let kept : t.authn_sessions ≡ s2.authn_sessions =
        ap (λ x. x.1.authn_sessions) (sym h4)
        ∙ (Keeps-redirect_response ctx c authorized.params response).at s4
        ∙ ap (λ x. x.1.authn_sessions) (sym p4)
        ∙ (Keeps-or_redirect ctx session.params (with_id_token ctx c authorized with_access)
              (Keeps-with_id_token ctx c authorized with_access)).at
            s3
        ∙ ap (λ x. x.1.authn_sessions) (sym p3)
        ∙ (Keeps-or_redirect ctx session.params (with_token ctx c authorized begun)
              (Keeps-with_token ctx c authorized begun)).at
            s2 in
      (
        authorized,
        c,
        response,
        s4,
        a,
        subst (λ x. IsSavedAlone session authorized x s2) first saved
            ∙ ap (λ m. (none, m)) (sym kept),
        known,
        id_token-answers c authorized with_access response s3 s4 accessed
            (redirected-ok session.params _ p4),
        h4,
      )
