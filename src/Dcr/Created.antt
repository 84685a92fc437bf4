-- ===== src/Dcr/Created.antt =====
-- What the registration of a client (`create` of internal/dcr/util.go) leaves and answers.
use goidc.Base.{ℕ, String, none, List, ◌<>◌, ◌≡◌, refl, sym, ap, ◌∙◌, arith, subst}
use goidc.Dcr.{
  create, register, created_response, execute_dcr_plugin, set_creation_defaults, store_client,
  with_plugin,
}
use goidc.Dcr.Client.{
  random_or_error, client_id, client_secret, secret_or_given, registration_access_token,
  set_defaults, new_client, with_defaults, with_default_method,
}
use goidc.Dcr.Request.{DynamicClientRequest, DynamicClientResponse}
use goidc.Dcr.Validation.{validate_dynamic_client_request}
use goidc.Dcr.Validation.Registrable.{IsRegistrable, validated-IsRegistrable}
use goidc.Model.Client.{Client, ClientMetaInfo}
use goidc.Oidc.Context.{Context, State, save_client}
use goidc.Oidc.Effect.{ok}
use goidc.Oidc.Effect.Frame.{Keeps, keeps_rules}
use goidc.Oidc.Effect.Laws.{>>=-ok, fault-then-ok, fault-ok, pure-ok}
use goidc.StrUtil.Random.Bounds.{IsRandom}
use goidc.Token.Make.Bounds.{found-of_ok, text-IsRandom}
use goidc.Token.Make.{random_text, value_or_internal_error}

-- The identifier of a client that was registered.
abbrev pub IsClientId : String → Type 0
IsClientId id = (text : String) × IsRandom 30 text × (id ≡ "dc-" <> text)

module _ (ctx : Context) where
  -- The clients of the server.
  abbrev pub registered : State ctx → List Client × ctx.client_manager.Store
  registered s = (s.static_clients, s.clients)

  Keeps-random_text : (n : ℕ) → Keeps registered (random_text ctx n)
  unfolding random_text
  Keeps-random_text n = record { at = λ s. refl }

  pub Keeps-random_or_error : (n : ℕ) → Keeps registered (random_or_error ctx n)
  Keeps-random_or_error n = search (keeps_rules, Keeps-random_text) depth 9

  pub random_or_error-ok :
      (n : ℕ) (s t : State ctx) (a : String) → random_or_error ctx n s ≡ (ok a, t) → IsRandom n a
  random_or_error-ok n s t a h =
      let (f, u, p, k) = >>=-ok (random_text ctx n) _ s h in
      let (e, same) = fault-ok (value_or_internal_error f) u k in
      text-IsRandom ctx n s u a (p ∙ ap (λ x. (ok x, u)) (found-of_ok ctx f a e))

  pub Keeps-set_defaults : (req : DynamicClientRequest) → Keeps registered (set_defaults ctx req)
  unfolding set_defaults client_secret
  Keeps-set_defaults req = search (keeps_rules, Keeps-random_or_error) depth 9

  Keeps-creation : (req : DynamicClientRequest) → Keeps registered (set_creation_defaults ctx req)
  unfolding set_creation_defaults client_id registration_access_token
  Keeps-creation req = search (keeps_rules, Keeps-random_or_error, Keeps-set_defaults) depth 9

  -- The data of a client with the defaults, and then with what the plugin makes of them.
  abbrev pub completed : ClientMetaInfo → ClientMetaInfo
  completed meta = execute_dcr_plugin ctx (with_defaults (with_default_method meta))

  -- The defaults change neither the identifier nor the registration token.
  pub set_defaults-ok :
      (req : DynamicClientRequest) (s t : State ctx) (filled : DynamicClientRequest)
      → set_defaults ctx req s ≡ (ok filled, t)
      → (filled.id ≡ req.id)
        × (filled.registration_access_token ≡ req.registration_access_token)
        × (filled.meta ≡ with_defaults (with_default_method req.meta))
  unfolding set_defaults
  set_defaults-ok req s t filled h =
      let named = with_default_method req.meta in
      let (secret, u, p, k) = >>=-ok (secret_or_given ctx named.authn_method req.secret) _ s h in
      let (e, same) = pure-ok (record req { secret = secret; meta = with_defaults named }) u k in
      (ap (λ r. r.id) e, ap (λ r. r.registration_access_token) e, ap (λ r. r.meta) e)

  client_id-ok : (s t : State ctx) (id : String) → client_id ctx s ≡ (ok id, t) → IsClientId id
  unfolding client_id
  client_id-ok s t id h =
      let (text, u, p, k) = >>=-ok (random_or_error ctx 30) _ s h in
      let (e, same) = pure-ok ("dc-" <> text) u k in (text, random_or_error-ok 30 s u text p, e)

  creation-ok :
      (req : DynamicClientRequest) (s t : State ctx) (filled : DynamicClientRequest)
      → set_creation_defaults ctx req s ≡ (ok filled, t)
      → IsClientId filled.id
        × IsRandom 50 filled.registration_access_token
        × (filled.meta ≡ with_defaults (with_default_method req.meta))
  unfolding set_creation_defaults registration_access_token
  creation-ok req s t filled h =
      let (id, u, p, k) = >>=-ok (client_id ctx) _ s h in
      let (token, v, q, l) = >>=-ok (random_or_error ctx 50) _ u k in
      let (same_id, same_token, same_meta) =
        set_defaults-ok (record req { id = id; registration_access_token = token }) v t filled l in
      (
        subst IsClientId (sym same_id) (client_id-ok s u id p),
        subst (IsRandom 50) (sym same_token) (random_or_error-ok 50 u v token q),
        same_meta,
      )

  -- A client that satisfies the demands was saved, with the data of the request, and the answer is
  -- about that client.
  pub record IsCreated (req : DynamicClientRequest) (s t : State ctx) (resp : DynamicClientResponse)
      : Type 0 where
    pub request : DynamicClientRequest
    pub same_data : request.meta ≡ completed req.meta
    pub registrable : IsRegistrable ctx request
    pub id_made : IsClientId request.id
    pub token_made : IsRandom 50 request.registration_access_token
    pub saved : ctx.client_manager.save (new_client ctx request) s.clients ≡ (none, t.clients)
    pub same_static : t.static_clients ≡ s.static_clients
    pub answered : resp ≡ created_response ctx request

  stored-ok :
      (req : DynamicClientRequest) (s t : State ctx) {u : Unit {0}}
      → store_client ctx req s ≡ (ok u, t)
      → (ctx.client_manager.save (new_client ctx req) s.clients ≡ (none, t.clients))
        × (t.static_clients ≡ s.static_clients)
  unfolding save_client
  stored-ok req s t h = (ground arith, ground arith)

  -- The client that was stored satisfies the demands, and is the one that the plugin left.
  pub register-ok :
      (response : DynamicClientRequest → DynamicClientResponse) (req : DynamicClientRequest)
      (s t : State ctx) (resp : DynamicClientResponse)
      → register ctx response req s ≡ (ok resp, t)
      → IsRegistrable ctx (with_plugin ctx req)
        × (ctx.client_manager.save (new_client ctx (with_plugin ctx req)) s.clients
            ≡ (none, t.clients))
        × (t.static_clients ≡ s.static_clients)
        × (resp ≡ response (with_plugin ctx req))
  unfolding register
  register-ok response req s t resp h =
      let extended = with_plugin ctx req in
      let (x, first, k) = fault-then-ok (validate_dynamic_client_request ctx req) _ s h in
      let (y, second, l) = fault-then-ok (validate_dynamic_client_request ctx extended) _ s k in
      let (z, v, stored, m) = >>=-ok (store_client ctx extended) _ s l in
      let (answered, same) = pure-ok (response extended) v m in
      let (saved, static) = stored-ok extended s v stored in
      (
        validated-IsRegistrable ctx extended second,
        saved ∙ ap (λ w. (none, w.clients)) (sym same),
        ap (λ w. w.static_clients) same ∙ static,
        answered,
      )

  -- A registration that is answered has saved one client, with an identifier and a registration
  -- token that were just made and the data that were asked for, completed by the defaults and the
  -- plugin, which satisfies the demands of the validations, and answers with that client's data.
  pub create-ok :
      (req : DynamicClientRequest) (s t : State ctx) (resp : DynamicClientResponse)
      → create ctx req s ≡ (ok resp, t)
      → IsCreated req s t resp
  unfolding create
  create-ok req s t resp h =
      let (filled, u, p, k) = >>=-ok (set_creation_defaults ctx req) _ s h in
      let (id, token, same_meta) = creation-ok req s u filled p in
      let kept = ap registered (ap (λ r. r.1) (sym p)) ∙ (Keeps-creation req).at s in
      let (registrable, saved, static, answered) =
        register-ok (created_response ctx) filled u t resp k in
      record {
        request = with_plugin ctx filled;
        same_data = ap (execute_dcr_plugin ctx) same_meta;
        registrable = registrable;
        id_made = id;
        token_made = token;
        saved =
            ap (λ r. ctx.client_manager.save (new_client ctx (with_plugin ctx filled)) r.1)
              (sym kept)
            ∙ saved;
        same_static = static ∙ ap (λ r. r.0) kept;
        answered = answered;
      }
