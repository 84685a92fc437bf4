-- ===== src/Dcr/Access.antt =====
-- Who may read, update and delete a registration (internal/dcr/util.go).
use goidc.Base.{
  String, Bool, true, false, none, ◌≡◌, arith, is_empty, ap, sym, ◌∙◌, ◌||◌, not, if◌then◌else◌,
  subst,
}
use goidc.Dcr.{
  execute_dcr_plugin, rotated_token, update, remove, updated_response, set_update_defaults,
  with_plugin,
}
use goidc.Dcr.Client.{
  with_defaults, with_default_method, protected_client, read_client, fetched_client,
  is_registration_access_token_valid, new_client, id_error, token_error, registration_access_token,
}
use goidc.Dcr.Created.{
  completed, register-ok, set_defaults-ok, registered, Keeps-random_or_error, Keeps-set_defaults,
}
use goidc.Dcr.Request.{DynamicClientRequest, DynamicClientResponse}
use goidc.Dcr.Validation.Registrable.{IsRegistrable}
use goidc.Model.Client.{Client}
use goidc.Oidc.Context.{Context, State, client_by_id, delete_client, or_internal_error}
use goidc.Oidc.Effect.{ok, pure, ◌>>=◌}
use goidc.Oidc.Effect.Laws.{>>=-ok, check-then-ok, pure-ok, pair-parts, passed-then, ok-then}
use goidc.Oidc.Effect.Frame.{Keeps, keeps_rules}
use goidc.Storage.{Fetched, found, failed}

module _ (ctx : Context) where
  -- The request has shown the registration token of the client that it names.
  pub record IsShown (req : DynamicClientRequest) (c : Client) (s : State ctx) : Type 0 where
    pub named : client_by_id ctx req.id s ≡ found c
    pub token_given : is_empty req.registration_access_token ≡ false
    pub token_matches :
        is_registration_access_token_valid ctx c req.registration_access_token ≡ true

  read-ok : (f : Fetched Client) (c : Client) → fetched_client ctx f ≡ ok c → f ≡ found c
  read-ok (failed e) c h = cc
  read-ok (found d) c h = ground arith

  shown :
      (c : Client) (req : DynamicClientRequest)
      → token_error ctx c req ≡ none
      → (is_empty req.registration_access_token ≡ false)
        × (is_registration_access_token_valid ctx c req.registration_access_token ≡ true)
  shown c req h = (ground arith, ground arith)

  -- A client is handed out only for its own registration token, and nothing changes.
  pub protected-IsShown :
      (req : DynamicClientRequest) (s t : State ctx) (c : Client)
      → protected_client ctx req s ≡ (ok c, t)
      → IsShown req c s × (t ≡ s)
  unfolding protected_client
  protected-IsShown req s t c h =
      let (n, k) = check-then-ok (id_error ctx req) _ s h in
      let (d, u, p, l) = >>=-ok (read_client ctx req.id) _ s k in
      let (g, m) = check-then-ok (token_error ctx d req) _ u l in
      let (same, kept) = pure-ok d u m in
      let (r, q) = pair-parts p in
      let (given, valid) = shown d req g in
      (
        record {
          named = read-ok _ d r ∙ ap found (sym same);
          token_given = given;
          token_matches =
              ap (λ e. is_registration_access_token_valid ctx e req.registration_access_token) same
              ∙ valid;
        },
        kept ∙ sym q,
      )

  -- A client is handed out to a request that shows its token.
  pub shown-accepted :
      (req : DynamicClientRequest) (s : State ctx) (c : Client)
      → is_empty req.id ≡ false
      → IsShown req c s
      → protected_client ctx req s ≡ (ok c, s)
  unfolding protected_client pure
  shown-accepted req s c n shown =
      passed-then (is_empty req.id) _ _ s n
      ∙ ok-then (read_client ctx req.id) _ s s c (ap (λ f. (fetched_client ctx f, s)) shown.named)
      ∙ passed-then
          (is_empty req.registration_access_token
            || not (is_registration_access_token_valid ctx c req.registration_access_token))
          _ _ s (let given = shown.token_given in let matches = shown.token_matches in ground arith)

  -- The client of the request was replaced by another of the same identifier.
  pub record IsUpdated (req : DynamicClientRequest) (s t : State ctx) (resp : DynamicClientResponse)
      : Type 0 where
    pub old : Client
    pub is_shown : IsShown req old s
    pub request : DynamicClientRequest
    pub same_id : request.id ≡ old.id
    pub same_data : request.meta ≡ completed ctx req.meta
    pub registrable : IsRegistrable ctx request
    pub saved : ctx.client_manager.save (new_client ctx request) s.clients ≡ (none, t.clients)
    pub answered : resp ≡ updated_response ctx request
    pub same_token :
        ctx.should_rotate_registration_tokens ≡ false
        → request.registration_access_token ≡ req.registration_access_token

  Keeps-update :
      (c : Client) (req : DynamicClientRequest)
      → Keeps (registered ctx) (set_update_defaults ctx c req)
  unfolding set_update_defaults registration_access_token
  Keeps-update c req = search (keeps_rules, Keeps-random_or_error, Keeps-set_defaults) depth 9

  rotated-by :
      (b : Bool) (req : DynamicClientRequest) (s t : State ctx) (r : DynamicClientRequest)
      → (if b
            then (registration_access_token ctx >>= λ token.
                pure (record req { registration_access_token = token }))
            else pure req)
          s
        ≡ (ok r, t)
      → (r.id ≡ req.id)
        × (b ≡ false → r.registration_access_token ≡ req.registration_access_token)
        × (r.meta ≡ req.meta)
  rotated-by true req s t r h =
      let (token, u, p, k) = >>=-ok (registration_access_token ctx) _ s h in
      let (e, same) = pure-ok (record req { registration_access_token = token }) u k in
      (ap (λ x. x.id) e, λ f. cc, ap (λ x. x.meta) e)
  rotated-by false req s t r h =
      let (e, same) = pure-ok req s h in
      (ap (λ x. x.id) e, λ f. ap (λ x. x.registration_access_token) e, ap (λ x. x.meta) e)

  rotated-ok :
      (req : DynamicClientRequest) (s t : State ctx) (r : DynamicClientRequest)
      → rotated_token ctx req s ≡ (ok r, t)
      → (r.id ≡ req.id)
        × (ctx.should_rotate_registration_tokens ≡ false
            → r.registration_access_token ≡ req.registration_access_token)
        × (r.meta ≡ req.meta)
  rotated-ok req s t r h = rotated-by ctx.should_rotate_registration_tokens req s t r h

  update_defaults-ok :
      (c : Client) (req : DynamicClientRequest) (s t : State ctx) (r : DynamicClientRequest)
      → set_update_defaults ctx c req s ≡ (ok r, t)
      → (r.id ≡ c.id)
        × (ctx.should_rotate_registration_tokens ≡ false
            → r.registration_access_token ≡ req.registration_access_token)
        × (r.meta ≡ with_defaults (with_default_method req.meta))
  unfolding set_update_defaults
  update_defaults-ok c req s t r h =
      let (u, v, p, k) = >>=-ok (rotated_token ctx (record req { id = c.id })) _ s h in
      let (same, token, same_meta) = rotated-ok (record req { id = c.id }) s v u p in
      let (kept, kept_token, filled) = set_defaults-ok ctx u v t r k in
      (
        kept ∙ same,
        λ e. kept_token ∙ token e,
        filled ∙ ap (λ m. with_defaults (with_default_method m)) same_meta,
      )

  -- An update that is answered was shown the token of the client that it names, saves a client that
  -- satisfies the demands of the validations under the same identifier, with the data that were asked
  -- for, completed by the defaults and the plugin, and keeps the token unless tokens are rotated.
  pub update-ok :
      (req : DynamicClientRequest) (s t : State ctx) (resp : DynamicClientResponse)
      → update ctx req s ≡ (ok resp, t)
      → IsUpdated req s t resp
  unfolding update
  update-ok req s t resp h =
      let (c, u, p, k) = >>=-ok (protected_client ctx req) _ s h in
      let (is_shown, same) = protected-IsShown req s u c p in
      let (filled, v, q, l) = >>=-ok (set_update_defaults ctx c req) _ u k in
      let (id, token, same_meta) = update_defaults-ok c req u v filled q in
      let (registrable, saved, static, answered) =
        register-ok ctx (updated_response ctx) filled v t resp l in
      record {
        old = c;
        is_shown = is_shown;
        request = with_plugin ctx filled;
        same_id = id;
        same_data = ap (execute_dcr_plugin ctx) same_meta;
        registrable = registrable;
        saved =
            ap (λ r. ctx.client_manager.save (new_client ctx (with_plugin ctx filled)) r.1)
              (sym (
                ap (λ r. registered ctx r.1) (sym q)
                ∙ (Keeps-update c req).at u
                ∙ ap (registered ctx) same))
            ∙ saved;
        answered = answered;
        same_token = token;
      }

  deleted-ok :
      (id : String) (s t : State ctx)
      → or_internal_error ctx (delete_client ctx id s) ≡ (ok tt, t)
      → delete_client ctx id s ≡ (none, t)
  unfolding delete_client
  deleted-ok id s t h = ground arith

  -- A deletion that succeeds was shown the registration token of the client that it deletes.
  pub remove-ok :
      (req : DynamicClientRequest) (s t : State ctx)
      → remove ctx req s ≡ (ok tt, t)
      → (c : Client) × IsShown req c s × (delete_client ctx req.id s ≡ (none, t))
  unfolding remove
  remove-ok req s t h =
      let (c, u, p, k) = >>=-ok (protected_client ctx req) _ s h in
      let (is_shown, same) = protected-IsShown req s u c p in
      (
        c,
        is_shown,
        subst (λ w. delete_client ctx req.id w ≡ (none, t)) same (deleted-ok req.id u t k),
      )
