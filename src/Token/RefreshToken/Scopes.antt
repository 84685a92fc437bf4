-- ===== src/Token/RefreshToken/Scopes.antt =====
-- A renewal (internal/token/refresh_token.go) keeps a session's grant, and its scopes within it.
use goidc.Base.{
  String, Bool, true, false, Option, none, some, List, [], ◌∷◌, is_empty, if◌then◌else◌, ◌≡◌, refl,
  sym, ap, ◌∙◌, arith, ◌||◌, all, contains, eq_refl, Bool-cases, inl, inr, subst,
}
use goidc.Model.Client.{Client}
use goidc.Model.Session.{GrantSession}
use goidc.Oidc.Context.{
  Context, State, grant_session_by_refresh_token, save_grant_session, grant_session_written,
}
use goidc.Oidc.Effect.{ok, pure, modify, ◌>>=◌}
use goidc.Oidc.Effect.Frame.{Keeps, Keeps-if, Keeps-bind, Keeps-pure}
use goidc.Oidc.Effect.Laws.{>>=-ok, pure-ok}
use goidc.Storage.{found}
use goidc.StrUtil.{split_with_spaces}
use goidc.Token.AuthzCode.Consumed.{stored-ok}
use goidc.Token.AuthzCode.{refresh_token}
use goidc.Token.Make.Bounds.{grants, Keeps-make}
use goidc.Token.Stored.Frame.{Keeps-refresh_token, Keeps-id_token_of, Keeps-authentication}
use goidc.Token.Model.{
  new_grant_options, GrantOptions, Token, TokenRequest, TokenResponse, new_grant_session,
}
use goidc.Token.RefreshToken.{
  contains_all_scopes, rotate, update_refresh_token_grant_session, renew,
  handle_refresh_token_grant_token_creation,
}
use goidc.Token.RefreshToken.Renewal.{renewal-ok}

-- The scopes that a session's tokens have are among the scopes that were granted.
unfoldable pub IsWithinGrant : GrantSession → Type 0
IsWithinGrant g = contains_all_scopes g.granted_scopes g.active_scopes ≡ true

-- `g'` is `g` with other tokens.
pub record Renews (g g' : GrantSession) : Type 0 where
  pub same_id : g'.id ≡ g.id
  pub same_client : g'.client_id ≡ g.client_id
  pub same_subject : g'.subject ≡ g.subject
  pub same_grant : g'.granted_scopes ≡ g.granted_scopes
  pub same_expiry : g'.expires_at_timestamp ≡ g.expires_at_timestamp
  pub within : IsWithinGrant g'

all-in_tail :
    (xs ys : List String) (x : String)
    → all (λ e. contains xs e) ys ≡ true
    → all (λ e. contains (x ∷ xs) e) ys ≡ true
all-in_tail xs [] x h = refl
all-in_tail xs (y ∷ ys) x h = ground (arith, all-in_tail xs ys x)

all-in_self : (xs : List String) → all (λ e. contains xs e) xs ≡ true
all-in_self [] = refl
all-in_self (x ∷ xs) = ground (arith, eq_refl x, all-in_tail xs xs x (all-in_self xs))

-- A session that a grant has just made is within it.
pub new_grant_session-IsWithinGrant :
    (uuid : String) (now : goidc.Base.ℕ) (o : GrantOptions) (token : Token)
    → IsWithinGrant (new_grant_session uuid now o token)
unfolding IsWithinGrant contains_all_scopes new_grant_session
new_grant_session-IsWithinGrant uuid now o token = all-in_self (split_with_spaces o.granted_scopes)

-- The session `g` with a new access token, of the identifier given, and a new refresh token.
abbrev reissued : GrantSession → goidc.Base.ℕ → String → String → GrantSession
reissued g now id refresh = record g {
  last_token_issued_at_timestamp = now;
  token_id = id;
  refresh_token = refresh;
}

abbrev narrowed : String → GrantSession → GrantSession
narrowed scopes g = if is_empty scopes then g else record g { active_scopes = scopes }

narrowed-Renews :
    (g : GrantSession) (now : goidc.Base.ℕ) (id refresh scopes : String)
    → (is_empty scopes || contains_all_scopes g.granted_scopes scopes) ≡ true
    → IsWithinGrant g
    → Renews g (narrowed scopes (reissued g now id refresh))
unfolding IsWithinGrant
narrowed-Renews g now id refresh scopes p w = record {
  same_id = ground arith;
  same_client = ground arith;
  same_subject = ground arith;
  same_grant = ground arith;
  same_expiry = ground arith;
  within = ground arith;
}

module _ (ctx : Context) (req : TokenRequest) where
  rotated-is :
      (b : Bool) (g g' : GrantSession) (s t : State ctx)
      → (if b
            then (refresh_token ctx >>= λ token. pure (record g { refresh_token = token }))
            else pure g)
          s
        ≡ (ok g', t)
      → g' ≡ record g { refresh_token = g'.refresh_token }
  rotated-is true g g' s t h =
      let (token, u, p, k) = >>=-ok _ _ s h in
      let (e, same) = pure-ok _ u k in
      e ∙ ap (λ r. record g { refresh_token = r }) (sym (ap (λ x. x.refresh_token) e))
  rotated-is false g g' s t h =
      let (e, same) = pure-ok _ s h in
      e ∙ ap (λ r. record g { refresh_token = r }) (sym (ap (λ x. x.refresh_token) e))

  -- The grant sessions of which a renewal saves the renewed session: those of `s` with the session
  -- and its renewal written through the pointer that the manager handed out.
  abbrev pub written_through :
      GrantSession → GrantSession → String → State ctx → ctx.grant_session_manager.Store
  written_through g g' token_id s = ctx.grant_session_manager.written g' (
      ctx.grant_session_manager.written
        (record g { last_token_issued_at_timestamp = ctx.now; token_id = token_id })
        s.grant_sessions)

  -- The renewed session is saved into the grant sessions, and nothing else happens to them.
  abbrev pub IsSavedAlone : GrantSession → GrantSession → String → State ctx → State ctx → Type 0
  IsSavedAlone g g' token_id s t =
      ctx.grant_session_manager.save g' (written_through g g' token_id s) ≡ (none, t.grant_sessions)

  save-parts :
      (g : GrantSession) (s t : State ctx)
      → save_grant_session ctx g s ≡ (none, t)
      → ctx.grant_session_manager.save g s.grant_sessions ≡ (none, t.grant_sessions)
  unfolding save_grant_session
  save-parts g s t h = ground arith

  Keeps-rotate : (g : GrantSession) → Keeps (grants ctx) (rotate ctx g)
  unfolding rotate
  Keeps-rotate g =
      Keeps-if ctx.should_rotate_refresh_tokens
        (refresh_token ctx >>= λ token. pure (record g { refresh_token = token })) (pure g)
        (Keeps-bind (refresh_token ctx) (λ token. pure (record g { refresh_token = token }))
          (Keeps-refresh_token ctx) (λ token. Keeps-pure (record g { refresh_token = token })))
        (Keeps-pure g)

  written-after :
      (g : GrantSession) (s t : State ctx) {u : Unit {0}}
      → modify (grant_session_written ctx g) s ≡ (ok u, t)
      → t.grant_sessions ≡ ctx.grant_session_manager.written g s.grant_sessions
  unfolding modify grant_session_written
  written-after g s t h = ap (λ x. x.1.grant_sessions) (sym h)

  renewed-Renews :
      (g g' rotated : GrantSession) (token : Token) (s t : State ctx)
      → (is_empty req.scopes || contains_all_scopes g.granted_scopes req.scopes) ≡ true
      → IsWithinGrant g
      → rotate ctx (record g { last_token_issued_at_timestamp = ctx.now; token_id = token.id }) s
        ≡ (ok rotated, t)
      → g' ≡ narrowed req.scopes rotated
      → Renews g g'
  unfolding rotate
  renewed-Renews g g' rotated token s t p w h e =
      let r =
        rotated-is ctx.should_rotate_refresh_tokens
          (record g { last_token_issued_at_timestamp = ctx.now; token_id = token.id }) rotated s t
          h in
      subst (Renews g) (sym (e ∙ ap (narrowed req.scopes) r))
        (narrowed-Renews g ctx.now token.id rotated.refresh_token req.scopes p w)

  -- The session of a renewal is saved, and it renews the one that the refresh token belongs to.
  update-Renews :
      (g g' : GrantSession) (token : Token) (s t : State ctx)
      → (is_empty req.scopes || contains_all_scopes g.granted_scopes req.scopes) ≡ true
      → IsWithinGrant g
      → update_refresh_token_grant_session ctx g req token s ≡ (ok g', t)
      → Renews g g' × IsSavedAlone g g' token.id s t
  unfolding update_refresh_token_grant_session
  update-Renews g g' token s t p w h =
      let issued = record g { last_token_issued_at_timestamp = ctx.now; token_id = token.id } in
      let (a1, s1, p1, h1) = >>=-ok _ _ s h in
      let (rotated, s2, p2, h2) = >>=-ok _ _ s1 h1 in
      let (a3, s3, p3, h3) = >>=-ok _ _ s2 h2 in
      let (a4, s4, p4, h4) = >>=-ok _ _ s3 h3 in
      let (e, same) = pure-ok _ s4 h4 in
      let kept : s2.grant_sessions ≡ s1.grant_sessions =
        ap (λ x. x.1.grant_sessions) (sym p2) ∙ (Keeps-rotate issued).at s1 in
      let through : s3.grant_sessions ≡ written_through g g' token.id s =
        written-after _ s2 s3 p3 ∙ (λ i.
          ctx.grant_session_manager.written (sym e i) ((kept ∙ written-after issued s s1 p1) i)) in
      (
        renewed-Renews g g' rotated token s1 s2 p w p2 e,
        ap (ctx.grant_session_manager.save g') (sym through)
            ∙ ap (λ x. ctx.grant_session_manager.save x s3.grant_sessions) e
            ∙ save-parts _ s3 s4 (stored-ok ctx _ s3 s4 p4)
            ∙ ap (λ x. (none, x.grant_sessions)) (sym same),
      )

  renew-Renews :
      (c : Client) (g : GrantSession) (s t : State ctx) (resp : TokenResponse)
      → (is_empty req.scopes || contains_all_scopes g.granted_scopes req.scopes) ≡ true
      → IsWithinGrant g
      → renew ctx req c g s ≡ (ok resp, t)
      → (g' : GrantSession) × (token_id : String) × Renews g g'
        × IsSavedAlone g g' token_id s t
        × (resp.refresh_token ≡ g'.refresh_token)
  unfolding renew
  renew-Renews c g s t resp p w h =
      let (token, s1, p1, h1) = >>=-ok _ _ s h in
      let (g', s2, p2, h2) = >>=-ok _ _ s1 h1 in
      let (id_token, s3, p3, h3) = >>=-ok _ _ s2 h2 in
      let (e, same) = pure-ok _ s3 h3 in
      let (r, saved) = update-Renews g g' token s1 s2 p w p2 in
      let before : s1.grant_sessions ≡ s.grant_sessions =
        ap (λ x. x.1.grant_sessions) (sym p1) ∙ (Keeps-make ctx c (new_grant_options g)).at s in
      let after : s2.grant_sessions ≡ t.grant_sessions = sym (
        ap (λ x. x.grant_sessions) same
        ∙ ap (λ x. x.1.grant_sessions) (sym p3)
        ∙ (Keeps-id_token_of ctx c g').at s2) in
      (
        g',
        token.id,
        r,
        subst
            (λ m.
              ctx.grant_session_manager.save g' (
                ctx.grant_session_manager.written g' (
                  ctx.grant_session_manager.written
                    (record g { last_token_issued_at_timestamp = ctx.now; token_id = token.id }) m))
              ≡ (none, t.grant_sessions))
            before (saved ∙ ap (λ m. (none, m)) after),
        ap (λ x. x.refresh_token) e,
      )

  abbrev pub IsRenewedWithin : State ctx → State ctx → TokenResponse → Type 0
  IsRenewedWithin s t resp =
      (g : GrantSession) × (g' : GrantSession) × (token_id : String)
      × (grant_session_by_refresh_token ctx req.refresh_token s ≡ found g)
      × Renews g g'
      × IsSavedAlone g g' token_id s t
      × (resp.refresh_token ≡ g'.refresh_token)

  -- If the sessions found have scopes within their grants, then so has the session that a renewal
  -- saves: it renews the one of the refresh token given, and has the refresh token that is returned.
  -- Beside the assignments to the session and its renewal, that save is all that happens to the grant
  -- sessions until the handler returns.
  pub renewal-Renews :
      (s t : State ctx) (resp : TokenResponse)
      → ((g : GrantSession)
          → grant_session_by_refresh_token ctx req.refresh_token s ≡ found g
          → IsWithinGrant g)
      → handle_refresh_token_grant_token_creation ctx req s ≡ (ok resp, t)
      → IsRenewedWithin s t resp
  renewal-Renews s t resp w h =
      let (c, g, x, looked, authenticated, renewable, renewed) = renewal-ok ctx req s t resp h in
      let (g', token_id, r, saved, token) =
        renew-Renews c g x t resp renewable.within (w g looked) renewed in
      let kept : x.grant_sessions ≡ s.grant_sessions =
        ap (λ y. y.1.grant_sessions) (sym authenticated)
        ∙ (Keeps-authentication ctx req.client_authn).at s in
      (
        g,
        g',
        token_id,
        looked,
        r,
        subst
            (λ m.
              ctx.grant_session_manager.save g' (
                ctx.grant_session_manager.written g' (
                  ctx.grant_session_manager.written
                    (record g { last_token_issued_at_timestamp = ctx.now; token_id = token_id }) m))
              ≡ (none, t.grant_sessions))
            kept saved,
        token,
      )
