-- ===== src/Dcr/RoundTrip.antt =====
-- With the in-memory managers, a registration can be read back (internal/dcr/util.go).
use Prim.Native.String
use text.Mathlib.TextPositions.{len-append}
use goidc.Base.{
  ℕ, String, Bool, true, false, Option, none, some, List, ◌<>◌, ◌≡◌, refl, arith, eq_iff, eq_refl,
  eq-of_==, is_empty, ap, sym, ◌∙◌, subst, Bool-cases, inl, inr, is-true-and-false, ◌+◌,
  if◌then◌else◌,
}
use goidc.Base.Dict.{insert, lookup}
use goidc.Base.Dict.Laws.{insert-found}
use goidc.Dcr.{client, create, created_response, read_response}
use goidc.Dcr.Client.{protected_client, is_registration_access_token_valid, new_client}
use goidc.Dcr.Access.{IsShown, shown-accepted}
use goidc.Dcr.Created.{IsClientId, create-ok}
use goidc.Dcr.Request.{DynamicClientRequest, DynamicClientResponse}
use goidc.Model.Client.{Client}
use goidc.Oidc.Config.{Configuration, Request}
use goidc.Oidc.Context.{Context, State, client_by_id, find_client}
use goidc.Oidc.Effect.{ok, pure}
use goidc.Oidc.Effect.Laws.{ok-then}
use goidc.Oidc.Library.{Library}
use goidc.Storage.{found}
use goidc.Storage.InMemory.{entity_or_error}
use goidc.StrUtil.Random.Bounds.{IsRandom}
use goidc.Token.AuthzCode.Replay.{in_memory}

-- The response to a reading of the registration, which has no secrets.
abbrev pub without_secrets : DynamicClientResponse → DynamicClientResponse
without_secrets resp = record resp { secret = ""; registration_access_token = "" }

-- The request that presents the identifier and the token of a response.
abbrev pub presenting : DynamicClientResponse → DynamicClientRequest → DynamicClientRequest
presenting resp req = record req {
  id = resp.id;
  registration_access_token = resp.registration_access_token;
}

IsRandom-not_empty : (n : ℕ) (s : String) → IsRandom (goidc.Base.suc n) s → is_empty s ≡ false
IsRandom-not_empty n s h = elim (Bool-cases (is_empty s)) [
  | inl e ↦
      absurd
        (let none_left : String.len s ≡ 0 = ap String.len (eq-of_== s "" e) in omega (arith, h.0))
  | inr e ↦ e
]

IsClientId-not_empty : (id : String) → IsClientId id → is_empty id ≡ false
IsClientId-not_empty id (text, made, e) = elim (Bool-cases (is_empty id)) [
  | inl h ↦ absurd (
      let none_left : String.len id ≡ 0 = ap String.len (eq-of_== id "" h) in
      let counted : String.len id ≡ 3 + String.len text = ap String.len e ∙ len-append "dc-" text in
      omega (arith, none_left, counted))
  | inr h ↦ h
]

module _ (config : Configuration) (http : Request) (library : Library) (now : ℕ) where
  abbrev ctx : Context
  ctx = in_memory config http library now

  saved-found :
      (c : Client) (s t : State ctx)
      → find_client c.id t.static_clients ≡ none
      → ◌≡◌ {A = Option String × List (String × Client)}
          (none, insert c.id c s.clients)
          (none, t.clients)
      → client_by_id ctx c.id t ≡ found c
  unfolding client_by_id
  saved-found c s t h e =
      rw (h, client_by_id)
        (ap entity_or_error (ap (λ p. lookup c.id p.1) (sym e) ∙ insert-found c.id c s.clients))

  -- A client that was registered reads its registration back with the identifier and the token that
  -- it was answered, if bcrypt accepts the password that it hashed and no static client has the
  -- identifier.
  pub client-create :
      (req : DynamicClientRequest) (s t : State ctx) (resp : DynamicClientResponse)
      → ((password : String)
          → library.compare_hash_and_password (library.generate_from_password password) password
            ≡ true)
      → find_client resp.id s.static_clients ≡ none
      → create ctx req s ≡ (ok resp, t)
      → client ctx (presenting resp req) t ≡ (ok (without_secrets resp), t)
  unfolding client new_client is_registration_access_token_valid pure
  client-create req s t resp hashed static h =
      let created = create-ok ctx req s t resp h in
      let sent = created.request in
      let c = new_client ctx sent in
      let shown : IsShown ctx (presenting (created_response ctx sent) req) c t = record {
        named =
            saved-found c s t
              (ap (find_client sent.id) created.same_static
                ∙ ap (λ i. find_client i s.static_clients) (ap (λ r. r.id) (sym created.answered))
                ∙ static)
              created.saved;
        token_given = IsRandom-not_empty 49 sent.registration_access_token created.token_made;
        token_matches = hashed sent.registration_access_token;
      } in
      subst (λ r. client ctx (presenting r req) t ≡ (ok (without_secrets r), t))
        (sym created.answered)
        (ok-then (protected_client ctx (presenting (created_response ctx sent) req))
          (λ found_client. pure (read_response ctx found_client)) t t c
          (shown-accepted ctx (presenting (created_response ctx sent) req) t c
            (IsClientId-not_empty sent.id created.id_made) shown))
