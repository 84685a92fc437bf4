-- ===== src/Token/Stored/Renewal.antt =====
-- With the in-memory managers, a renewal (internal/token/refresh_token.go) keeps every grant session
-- within its grant.
use goidc.Base.{ℕ, String, true, List, ◌==◌, ◌≡◌, refl, arith, is_empty, if◌then◌else◌, ◌||◌}
use goidc.Authn.{client}
use goidc.Model.Client.{Client}
use goidc.Model.Session.{GrantSession, grant_session_is_expired}
use goidc.Oidc.Config.{Configuration, Request}
use goidc.Oidc.Context.{
  Context, State, Run, grant_session_written, delete_grant_session, grant_session_by_refresh_token,
  or_internal_error,
}
use goidc.Oidc.Effect.{ok, pure, fault, modify, ◌>>=◌}
use goidc.Oidc.Effect.Ensures.{
  Ensures-pure, Ensures-raise, Ensures-if, Ensures-fault, Ensures-check, Ensures-bind,
  Ensures-modify, Ensures-weaken,
}
use goidc.Oidc.Library.{Library}
use goidc.Storage.InMemory.Laws.{find_first-All, values-of_erase, values-of_write_through}
use goidc.Storage.InMemory.Map.{values}
use goidc.Token.AuthzCode.{receive, refresh_token}
use goidc.Token.AuthzCode.Replay.{in_memory}
use goidc.Token.Make.Bounds.{Keeps-make}
use goidc.Token.Model.{Token, TokenRequest}
use goidc.Token.RefreshToken.{
  contains_all_scopes, delete_expired, validate_refresh_token_grant_request, rotate,
  get_grant_session_by_refresh_token, get_authenticated_client_and_grant_session,
  update_refresh_token_grant_session, renew, handle_refresh_token_grant_token_creation,
}
use goidc.Token.RefreshToken.Scopes.{IsWithinGrant}
use goidc.Token.Stored.Frame.{Keeps-refresh_token, Keeps-id_token_of, Keeps-authentication}
use goidc.Token.Stored.Within.{AreWithin, Stays, kept, stored}

module _ (config : Configuration) (http : Request) (library : Library) (now : ℕ) where
  abbrev ctx : Context
  ctx = in_memory config http library now

  abbrev Within : List (String × GrantSession) → Type 0
  Within = AreWithin config http library now

  abbrev Keeping : {A : Type 0} → (A → Type 0) → Run ctx A → Type 0
  Keeping = Stays config http library now

  found-Within :
      (token : String) (s : State ctx) (g : GrantSession)
      → Within s.grant_sessions
      → receive (get_grant_session_by_refresh_token ctx token s) ≡ ok g
      → IsWithinGrant g
  unfolding get_grant_session_by_refresh_token grant_session_by_refresh_token
  found-Within token s g p h =
      find_first-All IsWithinGrant (λ t. t.refresh_token == token) (values s.grant_sessions) g p
        (ground arith)

  parties-Within :
      (req : TokenRequest)
      → Keeping
          (λ parties. IsWithinGrant parties.1)
          (get_authenticated_client_and_grant_session ctx req)
  unfolding get_authenticated_client_and_grant_session
  parties-Within req = record {
    at = λ s p.
        (Ensures-bind (client ctx req.client_authn)
            (λ c.
              fault (receive (get_grant_session_by_refresh_token ctx req.refresh_token s)) >>= λ g.
              pure (c, g))
            (kept config http library now _ (Keeps-authentication ctx req.client_authn))
            (λ c u.
              Ensures-bind
                (fault (receive (get_grant_session_by_refresh_token ctx req.refresh_token s)))
                (λ g. pure (c, g)) (Ensures-fault _)
                (λ g e. Ensures-pure (c, g) (found-Within req.refresh_token s g p e)))).at
          s p;
  }

  -- The scopes that the request asks for are within the grant.
  abbrev AsksWithin : TokenRequest → GrantSession → Type 0
  AsksWithin req g = (is_empty req.scopes || contains_all_scopes g.granted_scopes req.scopes) ≡ true

  deleted :
      (g : GrantSession)
      → Keeping (λ u. Unit) (λ s. or_internal_error ctx (delete_grant_session ctx g.id s))
  unfolding delete_grant_session
  deleted g = record { at = λ s p. (values-of_erase IsWithinGrant g.id s.grant_sessions p, tt) }

  expired : (g : GrantSession) → Keeping (λ u. Unit) (delete_expired ctx g)
  unfolding delete_expired
  expired g =
      Ensures-if (grant_session_is_expired now g) _ _
        (λ e. Ensures-bind _ _ (deleted g) (λ u v. Ensures-raise _)) (λ e. Ensures-pure tt tt)

  validated :
      (req : TokenRequest) (c : Client) (g : GrantSession)
      → Keeping (λ u. AsksWithin req g) (validate_refresh_token_grant_request ctx req c g)
  unfolding validate_refresh_token_grant_request
  validated req c g = Ensures-bind _ _ (Ensures-check _) λ u e.
      Ensures-bind _ _ (Ensures-check _) λ v f. Ensures-bind _ _ (expired g) λ w x.
        Ensures-bind _ _ (Ensures-check _)
          λ y h. Ensures-weaken _ (Ensures-fault _) λ z k. ground arith

  written :
      (g : GrantSession)
      → IsWithinGrant g
      → Keeping (λ u. Unit) (modify (grant_session_written ctx g))
  unfolding grant_session_written
  written g w =
      Ensures-modify _ (λ s p. values-of_write_through IsWithinGrant g.id g s.grant_sessions p w)

  -- A session that is within its grant, which is the one of `g`.
  abbrev KeepsGrant : GrantSession → GrantSession → Type 0
  KeepsGrant g g' = IsWithinGrant g' × (g'.granted_scopes ≡ g.granted_scopes)

  rotated : (g : GrantSession) → IsWithinGrant g → Keeping (KeepsGrant g) (rotate ctx g)
  unfolding rotate IsWithinGrant
  rotated g w =
      Ensures-if config.should_rotate_refresh_tokens
        (refresh_token ctx >>= λ token. pure (record g { refresh_token = token })) (pure g)
        (λ e.
          Ensures-bind (refresh_token ctx) (λ token. pure (record g { refresh_token = token }))
            (kept config http library now (refresh_token ctx) (Keeps-refresh_token ctx))
            (λ token u. Ensures-pure (record g { refresh_token = token }) (w, refl)))
        (λ e. Ensures-pure g (w, refl))

  narrowed-Within :
      (req : TokenRequest) (g g' : GrantSession)
      → AsksWithin req g
      → KeepsGrant g g'
      → IsWithinGrant (if is_empty req.scopes then g' else record g' { active_scopes = req.scopes })
  unfolding IsWithinGrant
  narrowed-Within req g g' a (w, same) = ground arith

  updated :
      (g : GrantSession) (req : TokenRequest) (token : Token)
      → AsksWithin req g
      → IsWithinGrant g
      → Keeping (λ g'. Unit) (update_refresh_token_grant_session ctx g req token)
  unfolding update_refresh_token_grant_session IsWithinGrant
  updated g req token a w = Ensures-bind _ _ (written _ w) λ u v.
      Ensures-bind _ _ (rotated _ w) λ g' k.
        Ensures-bind _ _ (written _ (narrowed-Within req g g' a k)) λ x y.
          Ensures-bind _ _ (stored config http library now _ (narrowed-Within req g g' a k))
            λ z t. Ensures-pure _ tt

  pub refresh-Stays :
      (req : TokenRequest) → Keeping (λ r. Unit) (handle_refresh_token_grant_token_creation ctx req)
  unfolding handle_refresh_token_grant_token_creation renew
  refresh-Stays req = Ensures-bind _ _ (Ensures-check _) λ u e.
      Ensures-bind _ _ (parties-Within req) λ parties w.
        Ensures-bind _ _ (validated req parties.0 parties.1) λ v a.
          Ensures-bind _ _ (kept config http library now _ (Keeps-make ctx parties.0 _)) λ token x.
            Ensures-bind _ _ (updated parties.1 req token a w) λ g y.
              Ensures-bind _ _ (kept config http library now _ (Keeps-id_token_of ctx parties.0 g))
                λ text z. Ensures-pure _ tt
