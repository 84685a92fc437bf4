-- ===== src/Token/ClientCredentials/Issued.antt =====
-- With the in-memory managers, an opaque token of the client credentials grant
-- (internal/token/client_credentials.go) is found by introspection (internal/token/introspection.go).
use Prim.Native.String.{len}
use goidc.Base.{
  ℕ, String, true, false, none, ◌==◌, ◌≡◌, ◌≢◌, refl, ap, sym, ◌∙◌, subst, arith, nat_eq, eq_iff,
  All, inl, inr,
}
use goidc.Authn.{client}
use goidc.Authn.Frame.{Keeps-client}
use goidc.Model.Client.{Client}
use goidc.Model.Const.TokenFormat
use goidc.Model.Session.{GrantSession, TokenInfo, TokenOptions, has_last_token_expired}
use goidc.Oidc.Config.{Configuration, Request}
use goidc.Oidc.Context.{Context, State, save_grant_session, grant_session_by_token_id}
use goidc.Oidc.Effect.{ok}
use goidc.Oidc.Library.{Library}
use goidc.Storage.{Fetched, found, failed}
use goidc.Storage.InMemory.{entity_or_error}
use goidc.Storage.InMemory.Laws.{find_first-insert}
use goidc.Storage.InMemory.Map.{values}
use goidc.Token.AuthzCode.Replay.{in_memory}
use goidc.Token.Claims.{is_jws}
use goidc.Token.ClientCredentials.{
  new_client_credentials_grant_options, options_of, handle_client_credentials_grant_token_creation,
}
use goidc.Token.ClientCredentials.Permitted.{credentials-ok}
use goidc.Token.Introspection.{
  access_token_info, token_introspection_info_by_id, token_introspection_info,
}
use goidc.Token.Make.Bounds.{make-opaque, make_opaque_token-IsRandom, Keeps-make}
use goidc.Token.Model.{
  GrantOptions, Token, TokenRequest, TokenResponse, empty_response, new_grant_session,
  refresh_token_length,
}

module _ (ctx : Context) where
  -- The server's options ask for opaque tokens that are told apart from refresh tokens.
  abbrev pub IsOpaque : Type 0
  IsOpaque =
      (c : Client) (scopes : String) (o : TokenOptions)
      → ctx.token_options c scopes ≡ found o
      → ((o.token_format == TokenFormat.jwt) ≡ false)
        × (nat_eq o.opaque_token_length refresh_token_length ≡ false)

  options-found :
      (c : Client) (req : TokenRequest) (f : Fetched TokenOptions) (o : GrantOptions)
      → options_of ctx c req f ≡ ok o
      → f ≡ found o.token_options
  options-found c req (failed e) o h = cc
  options-found c req (found w) o h = ap found (ground arith)

  options-owner :
      (c : Client) (req : TokenRequest) (f : Fetched TokenOptions) (o : GrantOptions)
      → options_of ctx c req f ≡ ok o
      → o.client_id ≡ c.id
  options-owner c req (failed e) o h = cc
  options-owner c req (found w) o h = ground arith

  by-id :
      (token : String) (s : State ctx)
      → nat_eq (len token) refresh_token_length ≡ false
      → is_jws ctx token ≡ false
      → token_introspection_info ctx token s ≡ ok (token_introspection_info_by_id ctx token s)
  unfolding token_introspection_info
  by-id token s l j = rw (l, j) refl

  -- A session whose token was just issued describes an active token.
  fresh-active :
      (uuid : String) (o : GrantOptions) (token : Token)
      → let g = new_grant_session uuid ctx.now o token in
        ((access_token_info ctx (found g)).is_active ≡ true)
        × ((access_token_info ctx (found g)).client_id ≡ o.client_id)
        × ((access_token_info ctx (found g)).scopes ≡ o.granted_scopes)
  unfolding new_grant_session has_last_token_expired
  fresh-active uuid o token = (ground arith, ground arith, ground arith)

module _ (config : Configuration) (http : Request) (library : Library) (now : ℕ) where
  abbrev ctx : Context
  ctx = in_memory config http library now

  -- Introspection finds the token active, of the client that asked for it.
  abbrev pub IsActiveFor : TokenRequest → String → State ctx → State ctx → Type 0
  IsActiveFor req token s t =
      (c : Client) × (u : State ctx) × (info : TokenInfo) × (client ctx req.client_authn s
        ≡ (ok c, u))
      × (token_introspection_info ctx token t ≡ ok info)
      × (info.is_active ≡ true)
      × (info.client_id ≡ c.id)

  saved-found :
      (g : GrantSession) (s t : State ctx)
      → All (λ w. (w.token_id == g.token_id) ≡ false) (values s.grant_sessions)
      → save_grant_session ctx g s ≡ (none, t)
      → grant_session_by_token_id ctx g.token_id t ≡ found g
  unfolding save_grant_session grant_session_by_token_id
  saved-found g s t fresh h =
      ap (λ r. grant_session_by_token_id ctx g.token_id r.1) (sym h)
      ∙ ap entity_or_error (
          find_first-insert (λ w. w.token_id == g.token_id) g.id g s.grant_sessions fresh
            ((eq_iff g.token_id g.token_id).1 refl))

  described :
      (g : GrantSession) (s t : State ctx)
      → All (λ w. (w.token_id == g.token_id) ≡ false) (values s.grant_sessions)
      → save_grant_session ctx g s ≡ (none, t)
      → ok (token_introspection_info_by_id ctx g.token_id t) ≡ ok (access_token_info ctx (found g))
  unfolding token_introspection_info_by_id
  described g s t fresh h = ap (λ f. ok (access_token_info ctx f)) (saved-found g s t fresh h)

  -- An opaque token that the grant issued is active when it is introspected next, and belongs to
  -- the client that authenticated, if no other session has the same token and it has not the form
  -- of a JWS.
  pub issued-active :
      (req : TokenRequest) (s t : State ctx) (resp : TokenResponse)
      → IsOpaque ctx
      → All (λ w. (w.token_id == resp.access_token) ≡ false) (values s.grant_sessions)
      → is_jws ctx resp.access_token ≡ false
      → resp ≢ empty_response
      → handle_client_credentials_grant_token_creation ctx req s ≡ (ok resp, t)
      → IsActiveFor req resp.access_token s t
  unfolding new_client_credentials_grant_options new_grant_session
  issued-active req s t resp opaque fresh not_jws full h =
      let (c, o, token, u, v, authenticated, permitted, options, made, saved) =
        credentials-ok ctx req s t resp h in
      elim saved [
        | inl e ↦ absurd (full e)
        | inr (uuid, w, stored, same_value, same_grants) ↦
            let (form, length) =
              opaque c req.scopes o.token_options
                (options-found ctx c req (ctx.token_options c req.scopes) o options) in
            let (same_id, random) =
              make_opaque_token-IsRandom ctx o u v token
                (make-opaque ctx c o u v token form made) in
            let kept : w.grant_sessions ≡ s.grant_sessions =
              same_grants
              ∙ ap (λ r. r.1.grant_sessions) (sym made)
              ∙ (Keeps-make ctx c o).at u
              ∙ ap (λ r. r.1.grant_sessions) (sym authenticated)
              ∙ ap (λ b. b.grant_sessions) ((Keeps-client ctx req.client_authn).at s) in
            let text : resp.access_token ≡ token.id = same_value ∙ sym same_id in
            let g = new_grant_session uuid now o token in
            let (active, owner, scopes) = fresh-active ctx uuid o token in
            (
              c,
              u,
              access_token_info ctx (found g),
              authenticated,
              by-id ctx resp.access_token t
                    (ap (λ n. nat_eq n refresh_token_length) (ap len same_value ∙ random.0)
                      ∙ length)
                    not_jws
                  ∙ ap (λ x. ok (token_introspection_info_by_id ctx x t)) text
                  ∙ described g w t
                      (subst (λ m. All (λ x. (x.token_id == token.id) ≡ false) (values m))
                        (sym kept)
                        (subst (λ x. All (λ y. (y.token_id == x) ≡ false) (values s.grant_sessions))
                          text fresh))
                      stored,
              active,
              owner ∙ options-owner ctx c req (ctx.token_options c req.scopes) o options,
            )
      ]
