-- ===== src/Token/Stored/Within.antt =====
-- With the in-memory managers, the grants that need no stored grant session (internal/token) keep
-- every grant session within its grant.
use goidc.Base.{ℕ, ◌+◌, String, List, ◌≡◌, refl, sym, subst, All}
use goidc.Model.Client.{Client}
use goidc.Model.Session.{AuthnSession, GrantSession}
use goidc.Oidc.Config.{Configuration, Request}
use goidc.Oidc.Context.{Context, State, Run, save_grant_session}
use goidc.Oidc.Effect.{Outcome, ok, err, panic, crash, pure, ◌>>=◌}
use goidc.Oidc.Effect.Ensures.{
  Ensures, Ensures-pure, Ensures-if, Ensures-fault, Ensures-check, Ensures-bind, Ensures-of_Keeps,
  any-value,
}
use goidc.Oidc.Effect.Frame.{Keeps}
use goidc.Oidc.Library.{Library}
use goidc.Storage.InMemory.Laws.{values-insert}
use goidc.Storage.InMemory.Map.{values}
use goidc.StrUtil.{contains_offline_access}
use goidc.Token.AuthzCode.{
  add_refresh_token, store_grant_session, refresh_token, generate_authorization_code_grant_session,
  issue_for_session, handle_authorization_code_grant_token_creation,
}
use goidc.Token.AuthzCode.Replay.{in_memory}
use goidc.Token.ClientCredentials.{
  respond, generate_client_credentials_grant_session, issue_for_client,
  handle_client_credentials_grant_token_creation,
}
use goidc.Token.Make.Bounds.{grants, Keeps-new_uuid, Keeps-make}
use goidc.Token.Model.{GrantOptions, Token, TokenRequest}
use goidc.Token.RefreshToken.Scopes.{IsWithinGrant, new_grant_session-IsWithinGrant}
use goidc.Token.Stored.Frame.{
  Keeps-refresh_token, Keeps-id_token_if_open_id, Keeps-parties, Keeps-code_validated,
  Keeps-credentials_validated, Keeps-authentication,
}

module _ (config : Configuration) (http : Request) (library : Library) (now : ℕ) where
  abbrev ctx : Context
  ctx = in_memory config http library now

  abbrev pub AreWithin : List (String × GrantSession) → Type 0
  AreWithin m = All IsWithinGrant (values m)

  -- The action keeps the stored sessions within their grants, whatever comes of it.
  abbrev pub Stays : {A : Type 0} → (A → Type 0) → Run ctx A → Type 0
  Stays Q m = Ensures (λ s. AreWithin s.grant_sessions) Q m

  pub kept : {A : Type 0} (m : Run ctx A) → Keeps (grants ctx) m → Stays (λ a. Unit) m
  kept m k = Ensures-of_Keeps (grants ctx) AreWithin m k

  pub stored : (g : GrantSession) → IsWithinGrant g → Stays (λ u. Unit) (store_grant_session ctx g)
  unfolding store_grant_session save_grant_session
  stored g w = record {
    at = λ s p. (values-insert (λ g. g.id) IsWithinGrant g.id g s.grant_sessions p w, tt);
  }

  abbrev refreshed : GrantSession → String → GrantSession
  refreshed g token = record g {
    refresh_token = token;
    expires_at_timestamp = now + config.refresh_token_lifetime_secs;
  }

  added : (g : GrantSession) → IsWithinGrant g → Stays IsWithinGrant (add_refresh_token ctx g)
  unfolding add_refresh_token IsWithinGrant
  added g w =
      Ensures-if (contains_offline_access g.granted_scopes)
        (refresh_token ctx >>= λ token. pure (refreshed g token)) (pure g)
        (λ e.
          Ensures-bind (refresh_token ctx) (λ token. pure (refreshed g token))
            (kept (refresh_token ctx) (Keeps-refresh_token ctx))
            (λ token u. Ensures-pure (refreshed g token) w))
        (λ e. Ensures-pure g w)

  generated :
      (token : Token) (o : GrantOptions)
      → Stays (λ g. Unit) (generate_authorization_code_grant_session ctx token o)
  unfolding generate_authorization_code_grant_session
  generated token o = Ensures-bind _ _ (kept _ (Keeps-new_uuid ctx)) λ uuid u.
      Ensures-bind _ _ (added _ (new_grant_session-IsWithinGrant uuid now o token))
        λ g w. Ensures-bind _ _ (stored g w) λ v x. Ensures-pure g tt

  issued :
      (req : TokenRequest) (c : Client) (session : AuthnSession)
      → Stays (λ r. Unit) (issue_for_session ctx req c session)
  unfolding issue_for_session
  issued req c session = Ensures-bind _ _ (Ensures-fault _) λ o e.
      Ensures-bind _ _ (kept _ (Keeps-make ctx c o)) λ token u.
        Ensures-bind _ _ (generated token o) λ g v.
          Ensures-bind _ _ (kept _ (Keeps-id_token_if_open_id ctx c session o))
            λ text w. Ensures-pure _ tt

  pub code-Stays :
      (req : TokenRequest)
      → Stays (λ r. Unit) (handle_authorization_code_grant_token_creation ctx req)
  unfolding handle_authorization_code_grant_token_creation
  code-Stays req = Ensures-bind _ _ (Ensures-check _) λ u e.
      Ensures-bind _ _ (kept _ (Keeps-parties ctx req)) λ parties v.
        Ensures-bind _ _ (kept _ (Keeps-code_validated ctx req parties.0 parties.1))
          λ w x. issued req parties.0 parties.1

  respond-state :
      (req : TokenRequest) (token : Token) (o : GrantOptions) (r : Outcome (Unit {0}) × State ctx)
      → (respond ctx req token o r).1 ≡ r.1
  respond-state req token o (ok u, s) = refl
  respond-state req token o (err e, s) = refl
  respond-state req token o (panic, s) = refl
  respond-state req token o (crash, s) = refl

  saved :
      (token : Token) (o : GrantOptions)
      → Stays (λ u. Unit) (generate_client_credentials_grant_session ctx token o)
  unfolding generate_client_credentials_grant_session
  saved token o =
      Ensures-bind _ _ (kept _ (Keeps-new_uuid ctx))
        λ uuid u. stored _ (new_grant_session-IsWithinGrant uuid now o token)

  pub credentials-Stays :
      (req : TokenRequest)
      → Stays (λ r. Unit) (handle_client_credentials_grant_token_creation ctx req)
  unfolding handle_client_credentials_grant_token_creation issue_for_client
  credentials-Stays req =
      Ensures-bind _ _ (kept _ (Keeps-authentication ctx req.client_authn)) λ c u.
        Ensures-bind _ _ (kept _ (Keeps-credentials_validated ctx req c)) λ v w.
          Ensures-bind _ _ (Ensures-fault _) λ o e.
            Ensures-bind _ _ (kept _ (Keeps-make ctx c o)) λ token x. record {
              at = λ s p. (
                subst (λ t. AreWithin t.grant_sessions)
                    (sym (
                      respond-state req token o
                        (generate_client_credentials_grant_session ctx token o s)))
                    ((saved token o).at s p).0,
                any-value _,
              );
            }
