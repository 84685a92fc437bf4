-- ===== src/Authorize/Redirect/Sent.antt =====
-- Where a response of the authorization endpoint goes (internal/authorize/redirect.go).
use goidc.Base.{
  String, Bool, true, false, Option, none, some, List, [], ◌∷◌, ◌++◌, if◌then◌else◌, ◌≡◌, refl, sym,
  subst, ap, ◌∙◌, arith, ◌⊎◌, inl, inr, ◌<>◌,
}
use goidc.Authn.Frame.{fetch_public_jwks_keeps}
use goidc.Authorize.Redirect.{
  respond, rendered, url_response, sign_jarm_response, create_jarm_response, response_of,
  response_mode, with_jarm, redirect_response,
}
use goidc.Authorize.Request.{AuthorizationResponse, parameters}
use goidc.Model.Client.{Client}
use goidc.Model.Params.{AuthorizationParameters}
use goidc.Oidc.Context.{Context, State, Response, redirect, form_post}
use goidc.Oidc.Effect.{ok}
use goidc.Oidc.Effect.Frame.{Keeps, keeps_rules}
use goidc.Oidc.Effect.Laws.{>>=-ok, fault-then-ok}
use goidc.Oidc.Keys.{encryption_jwk}
use goidc.Token.IdToken.{encrypt_for_client}
use goidc.Token.Make.{or_panic}

module _ (ctx : Context) where
  open ctx use {library}

  -- A redirect to the URI itself, or to it with parameters in its fragment or in its query, or a form
  -- that is posted to it.
  abbrev pub IsSentTo : String → Response → Type 0
  IsSentTo uri (redirect url) =
      (url ≡ uri)
      ⊎ ((ps : List (String × String)) × ((url ≡ uri <> "#" <> library.encode_values ps)
            ⊎ (library.url_with_query uri ps ≡ some url)))
  IsSentTo uri (form_post target ps) = target ≡ uri

  abbrev sent : State ctx → List Response
  sent s = s.responses

  Keeps-encrypted :
      (k e : String) (c : Client) (text : String) → Keeps sent (encrypt_for_client ctx k e c text)
  unfolding encrypt_for_client encryption_jwk
  Keeps-encrypted k e c text = record {
    at = λ s. ground (arith, ap (λ v. v.responses) (fetch_public_jwks_keeps ctx c s));
  }

  Keeps-with_jarm :
      (c : Client) (params : AuthorizationParameters) (response : AuthorizationResponse)
      → Keeps sent (with_jarm ctx c params response)
  unfolding create_jarm_response sign_jarm_response
  Keeps-with_jarm c params response = search (keeps_rules, Keeps-encrypted) depth 14

  url-IsSentTo :
      (uri : String) (ps : List (String × String)) (o : Option String) (resp : Response)
      → library.url_with_query uri ps ≡ o
      → url_response ctx o ≡ some resp
      → IsSentTo uri resp
  url-IsSentTo uri ps none resp h k = cc
  url-IsSentTo uri ps (some url) (redirect target) h k =
      let e : url ≡ target = cc in inr (ps, inr (h ∙ ap some e))
  url-IsSentTo uri ps (some url) (form_post target qs) h k = cc

  chosen-IsSentTo :
      (a b : Bool) (uri : String) (ps : List (String × String)) (resp : Response)
      → (if a
          then some (redirect (uri <> "#" <> library.encode_values ps))
          else if b
          then some (form_post uri ps)
          else url_response ctx (library.url_with_query uri ps))
        ≡ some resp
      → IsSentTo uri resp
  chosen-IsSentTo true b uri ps (redirect url) h = inr (ps, inl cc)
  chosen-IsSentTo true b uri ps (form_post target qs) h = cc
  chosen-IsSentTo false true uri ps (redirect url) h = cc
  chosen-IsSentTo false true uri ps (form_post target qs) h = cc
  chosen-IsSentTo false false uri ps resp h = url-IsSentTo uri ps _ resp refl h

  plain-IsSentTo :
      (b : Bool) (uri : String) (resp : Response)
      → (if b then some (form_post uri []) else some (redirect uri)) ≡ some resp
      → IsSentTo uri resp
  plain-IsSentTo true uri (redirect url) h = cc
  plain-IsSentTo true uri (form_post target qs) h = cc
  plain-IsSentTo false uri (redirect url) h = inl cc
  plain-IsSentTo false uri (form_post target qs) h = cc

  response-IsSentTo :
      (mode uri : String) (ps : List (String × String)) (resp : Response)
      → response_of ctx mode uri ps ≡ some resp
      → IsSentTo uri resp
  unfolding response_of
  response-IsSentTo mode uri [] resp h = plain-IsSentTo _ uri resp h
  response-IsSentTo mode uri (p ∷ ps) resp h = chosen-IsSentTo _ _ uri (p ∷ ps) resp h

  given-ok : (o : Option Response) {resp : Response} → or_panic o ≡ ok resp → o ≡ some resp
  given-ok none h = cc
  given-ok (some r) h = cc

  -- The response was sent; or it is a form, and the user agent had gone, so that nothing was sent.
  abbrev pub IsSent : Response → List Response → List Response → Type 0
  IsSent resp before after =
      (after ≡ before ++ resp ∷ [])
      ⊎ ((uri : String) × (ps : List (String × String)) × (resp ≡ form_post uri ps)
          × (ctx.request.is_done ≡ true)
          × (after ≡ before))

  rendered-sent :
      (o : Option String) (resp : Response) (s t : State ctx) {u : Unit {0}}
      → rendered ctx resp o s ≡ (ok u, t)
      → t.responses ≡ s.responses ++ resp ∷ []
  rendered-sent none resp s t h = ap (λ x. x.1.responses) (sym h)
  rendered-sent (some message) resp s t h = cc

  posted-IsSent :
      (b : Bool) (uri : String) (ps : List (String × String)) (s t : State ctx) {u : Unit {0}}
      → ctx.request.is_done ≡ b
      → (if b
          then (ok tt, s)
          else rendered ctx (form_post uri ps) (library.execute_template uri ps) s)
        ≡ (ok u, t)
      → IsSent (form_post uri ps) s.responses t.responses
  posted-IsSent true uri ps s t e h = inr (uri, ps, refl, e, ap (λ x. x.1.responses) (sym h))
  posted-IsSent false uri ps s t e h =
      inl (rendered-sent (library.execute_template uri ps) (form_post uri ps) s t h)

  respond-IsSent :
      (resp : Response) (s t : State ctx) {u : Unit {0}}
      → respond ctx resp s ≡ (ok u, t)
      → IsSent resp s.responses t.responses
  unfolding respond
  respond-IsSent (redirect url) s t h = inl (ap (λ x. x.1.responses) (sym h))
  respond-IsSent (form_post uri ps) s t h = posted-IsSent ctx.request.is_done uri ps s t refl h

  -- Where a response was made without an error, it is the only one that was sent, or it is a form and
  -- nothing was sent, since the user agent had gone. It goes to the redirect URI of the parameters, in
  -- every response mode.
  pub redirect-IsSentTo :
      (c : Client) (params : AuthorizationParameters) (response : AuthorizationResponse)
      (s t : State ctx)
      → redirect_response ctx c params response s ≡ (ok tt, t)
      → (resp : Response) × IsSent resp s.responses t.responses × IsSentTo params.redirect_uri resp
  unfolding redirect_response
  redirect-IsSentTo c params response s t h =
      let (signed, u, p1, h1) = >>=-ok _ _ s h in
      let (resp, p2, h2) = fault-then-ok _ _ u h1 in
      let kept : u.responses ≡ s.responses =
        ap (λ x. x.1.responses) (sym p1)
        ∙ (Keeps-with_jarm c params (
              if ctx.issuer_response_parameter_is_enabled
              then record response { issuer = ctx.host }
              else response)).at
            s in
      (
        resp,
        subst (λ rs. IsSent resp rs t.responses) kept (respond-IsSent resp u t h2),
        response-IsSentTo (response_mode params) params.redirect_uri (parameters signed) resp
            (given-ok _ p2),
      )
