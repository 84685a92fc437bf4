-- ===== src/Token/Introspection/Active.antt =====
-- When introspection (internal/token/introspection.go) answers that a token is active.
use Prim.Native.String.{len}
use goidc.Base.{
  ◌≤◌, String, Bool, true, false, Option, none, some, if◌then◌else◌, ◌≡◌, ◌≢◌, refl, subst, eq_iff,
  nat_eq, ap, ◌∙◌, arith, ◌⊎◌, inl, inr,
}
use goidc.Authn.{client}
use goidc.Base.Dict.{lookup}
use goidc.Model.Client.{Client, is_grant_type_allowed}
use goidc.Model.Const.GrantType
use goidc.Model.Session.{GrantSession, TokenInfo, grant_session_is_expired, has_last_token_expired}
use goidc.Oidc.Context.{Context, State, grant_session_by_refresh_token, grant_session_by_token_id}
use goidc.Model.Value.{Claims, Value}
use goidc.Oidc.Effect.{Outcome, ok, err, panic, crash}
use goidc.Oidc.Effect.Laws.{pair-parts, >>=-ok, check-then-ok}
use goidc.Storage.{Fetched, found, failed}
use goidc.Token.Introspection.{
  refresh_token_introspection_info, token_introspection_info_by_id, jwt_token_introspection_info,
  refresh_token_info, access_token_info, info_by_claim, info_by_claims, token_introspection_info,
  validate_token_introspection_request, introspect,
}
use goidc.Token.Model.{TokenIntrospectionRequest, refresh_token_length}
use goidc.Token.Claims.{is_jws, valid_claims}

module _ (ctx : Context) where
  -- `info` describes a token of the grant session `g`, and the token has not expired.
  pub record Describes (g : GrantSession) (info : TokenInfo) : Type 0 where
    pub same_client : info.client_id ≡ g.client_id
    pub same_subject : info.subject ≡ g.subject
    pub fresh : ctx.now ≤ info.expires_at_timestamp

  -- The identifier of the access token: the token itself, or the claim "jti" of a signed one.
  abbrev pub IsTokenId : String → String → Type 0
  IsTokenId token id =
      ((is_jws ctx token ≡ false) × (id ≡ token))
      ⊎ ((is_jws ctx token ≡ true)
          × ((claims : Claims) × (valid_claims ctx token ≡ ok claims)
              × (lookup "jti" claims ≡ some (Value.text id))))

  -- `g` is the session that the state holds under the token: as a refresh token, if it has the length
  -- of one, and else as an access token.
  abbrev pub IsHeld : String → State ctx → GrantSession → Type 0
  IsHeld token s g =
      ((nat_eq (len token) refresh_token_length ≡ true)
        × (grant_session_by_refresh_token ctx token s ≡ found g))
      ⊎ ((nat_eq (len token) refresh_token_length ≡ false)
          × ((id : String) × IsTokenId token id × (grant_session_by_token_id ctx id s ≡ found g)))

  Describes-refresh :
      (g : GrantSession)
      → (refresh_token_info ctx (found g)).is_active ≡ true
      → Describes g (refresh_token_info ctx (found g))
  unfolding grant_session_is_expired
  Describes-refresh g h = record {
    same_client = ground arith;
    same_subject = ground arith;
    fresh = ground arith;
  }

  Describes-access :
      (g : GrantSession)
      → (access_token_info ctx (found g)).is_active ≡ true
      → Describes g (access_token_info ctx (found g))
  unfolding has_last_token_expired
  Describes-access g h = record {
    same_client = ground arith;
    same_subject = ground arith;
    fresh = ground arith;
  }

  refresh_found :
      (r : Fetched GrantSession)
      → (refresh_token_info ctx r).is_active ≡ true
      → (g : GrantSession) × (r ≡ found g) × Describes g (refresh_token_info ctx r)
  refresh_found (failed message) h = cc
  refresh_found (found g) h = (g, refl, Describes-refresh g h)

  access_found :
      (r : Fetched GrantSession)
      → (access_token_info ctx r).is_active ≡ true
      → (g : GrantSession) × (r ≡ found g) × Describes g (access_token_info ctx r)
  access_found (failed message) h = cc
  access_found (found g) h = (g, refl, Describes-access g h)

  pub IsDescribed : String → State ctx → TokenInfo → Type 0
  IsDescribed token s info = (g : GrantSession) × IsHeld token s g × Describes g info

  refresh-active :
      (token : String) (s : State ctx) (info : TokenInfo)
      → nat_eq (len token) refresh_token_length ≡ true
      → refresh_token_introspection_info ctx token s ≡ info
      → info.is_active ≡ true
      → IsDescribed token s info
  unfolding refresh_token_introspection_info IsDescribed
  refresh-active token s info n e h =
      let (g, looked, d) =
        refresh_found (grant_session_by_refresh_token ctx token s) (ap (λ i. i.is_active) e ∙ h) in
      (g, inl (n, looked), subst (Describes g) e d)

  access-active :
      (token id : String) (s : State ctx) (info : TokenInfo)
      → nat_eq (len token) refresh_token_length ≡ false
      → IsTokenId token id
      → token_introspection_info_by_id ctx id s ≡ info
      → info.is_active ≡ true
      → IsDescribed token s info
  unfolding token_introspection_info_by_id IsDescribed
  access-active token id s info n named e h =
      let (g, looked, d) =
        access_found (grant_session_by_token_id ctx id s) (ap (λ i. i.is_active) e ∙ h) in
      (g, inr (n, (id, named, looked)), subst (Describes g) e d)

  if-active :
      {R : Type 0} (b : Bool) (m n : Outcome TokenInfo) (info : TokenInfo)
      → (b ≡ true → m ≡ ok info → R)
      → (b ≡ false → n ≡ ok info → R)
      → (if b then m else n) ≡ ok info
      → R
  if-active true m n info f g h = f refl h
  if-active false m n info f g h = g refl h

  ok-value : {a b : TokenInfo} → ok a ≡ ok b → a ≡ b
  ok-value h = cc

  claim-active :
      (v : Option Value) (s : State ctx) (info : TokenInfo)
      → info_by_claim ctx v s ≡ ok info
      → info.is_active ≡ true
      → (id : String) × (v ≡ some (Value.text id))
        × (token_introspection_info_by_id ctx id s ≡ info)
  claim-active none s info h k = cc
  claim-active (some (Value.text id)) s info h k = (id, refl, ok-value h)
  claim-active (some (Value.number n)) s info h k = cc
  claim-active (some (Value.details d)) s info h k = cc
  claim-active (some (Value.confirmation d)) s info h k = cc
  claim-active (some (Value.texts d)) s info h k = cc
  claim-active (some (Value.flag d)) s info h k = cc
  claim-active (some (Value.other d)) s info h k = cc

  claims-active :
      (token : String) (r : Outcome Claims) (s : State ctx) (info : TokenInfo)
      → nat_eq (len token) refresh_token_length ≡ false
      → is_jws ctx token ≡ true
      → valid_claims ctx token ≡ r
      → info_by_claims ctx r s ≡ ok info
      → info.is_active ≡ true
      → IsDescribed token s info
  claims-active token (ok claims) s info n signed e h k =
      let (id, named, looked) = claim-active (lookup "jti" claims) s info h k in
      access-active token id s info n (inr (signed, (claims, e, named))) looked k
  claims-active token (err e) s info n signed v h k = cc
  claims-active token panic s info n signed v h k = cc
  claims-active token crash s info n signed v h k = cc

  info-active :
      (token : String) (s : State ctx) (info : TokenInfo)
      → token_introspection_info ctx token s ≡ ok info
      → info.is_active ≡ true
      → IsDescribed token s info
  unfolding token_introspection_info jwt_token_introspection_info
  info-active token s info h k =
      if-active (nat_eq (len token) refresh_token_length)
        (ok (refresh_token_introspection_info ctx token s))
        (if is_jws ctx token
          then jwt_token_introspection_info ctx token s
          else ok (token_introspection_info_by_id ctx token s))
        info (λ n e. refresh-active token s info n (ok-value e) k)
        (λ n e.
          if-active (is_jws ctx token) (jwt_token_introspection_info ctx token s)
            (ok (token_introspection_info_by_id ctx token s)) info
            (λ b e'. claims-active token (valid_claims ctx token) s info n b refl e' k)
            (λ b e'. access-active token token s info n (inl (b, refl)) (ok-value e') k) e)
        h

  validated :
      (req : TokenIntrospectionRequest) (c : Client)
      → validate_token_introspection_request ctx req c ≡ none
      → (is_grant_type_allowed c GrantType.introspection ≡ true) × (req.token ≢ "")
  unfolding validate_token_introspection_request
  validated req c h = (ground arith, ground (arith, eq_iff req.token ""))

  abbrev pub IsIntrospected : TokenIntrospectionRequest → State ctx → State ctx → TokenInfo → Type 0
  IsIntrospected req s t info =
      ((c : Client) × (client ctx req.client_authn s ≡ (ok c, t))
        × (is_grant_type_allowed c GrantType.introspection ≡ true))
      × (req.token ≢ "")
      × IsDescribed req.token t info

  -- The client has authenticated, it may introspect, and an active token is the one that was sent, as
  -- the refresh token or the access token of a grant session that the storage holds under it.
  pub introspect-active :
      (req : TokenIntrospectionRequest) (s t : State ctx) (info : TokenInfo)
      → introspect ctx req s ≡ (ok info, t)
      → info.is_active ≡ true
      → IsIntrospected req s t info
  unfolding introspect
  introspect-active req s t info h k =
      let (c, v, p1, h1) = >>=-ok _ _ s h in
      let (p2, h2) = check-then-ok _ _ v h1 in
      let (allowed, given) = validated req c p2 in
      let (p3, same) = pair-parts h2 in
      (
        (c, p1 ∙ ap (λ x. (ok c, x)) same, allowed),
        given,
        subst (λ x. IsDescribed req.token x info) same (info-active req.token v info p3 k),
      )
