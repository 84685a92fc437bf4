-- ===== src/Token/AuthzCode/Replay.antt =====
-- With the in-memory managers, a code that was presented (internal/token/authz_code.go) is gone, and
-- a code that is not found ends the process.
use goidc.Base.{
  ℕ, String, true, false, none, some, List, [], ◌∷◌, ◌≡◌, ap, ◌∙◌, arith, ◌==◌, eq_iff, ◌≢◌, All,
  not-is_empty, Bool-cases, eq-of_==, is-true-and-false, inl, inr,
}
use goidc.Authn.{client}
use goidc.Base.Dict.{erase}
use goidc.Model.Client.{Client}
use goidc.Model.Session.{AuthnSession}
use goidc.Oidc.Config.{Configuration, Request}
use goidc.Oidc.Context.{Context, State, authn_session_by_authorization_code, delete_authn_session}
use goidc.Oidc.Effect.{ok, crash, fault, ◌>>=◌}
use goidc.Oidc.Effect.Laws.{passed-then, ok-then, crash-then}
use goidc.Oidc.Library.{Library}
use goidc.Storage.{found, failed}
use goidc.Storage.InMemory
use goidc.Storage.InMemory.{entity_or_error, get_first_session}
use goidc.Storage.InMemory.Laws.{IsKeyed, find_first-none}
use goidc.Storage.InMemory.Map.{values}
use goidc.Token.AuthzCode.{
  get_session_by_authorization_code, get_authenticated_client_and_session,
  handle_authorization_code_grant_token_creation, Message, invalid_grant,
}
use goidc.Token.AuthzCode.Consumed.{session-consumed}
use goidc.Token.Model.{TokenRequest}

-- The context whose managers are the in-memory ones.
abbrev pub in_memory : Configuration → Request → Library → ℕ → Context
in_memory config request library now = record {
  config = config;
  request = request;
  library = library;
  now = now;
  client_manager = InMemory.client_manager;
  authn_session_manager = InMemory.authn_session_manager;
  grant_session_manager = InMemory.grant_session_manager;
}

-- The code belongs to no session but one of the given ID.
abbrev pub HasOnly : String → String → List AuthnSession → Type 0
HasOnly code id sessions = All (λ v. v.authorization_code ≡ code → v.id ≡ id) sessions

other-code :
    (c code j k id : String) → j ≡ id → (c ≡ code → id ≡ k) → (j == k) ≡ false → (c == code) ≡ false
other-code c code j k id e f n = elim (Bool-cases (c == code)) [
  | inl t ↦ absurd (is-true-and-false ((eq_iff j k).1 (e ∙ f (eq-of_== c code t))) n)
  | inr g ↦ g
]

erased-lacks :
    (code k : String) (m : List (String × AuthnSession))
    → IsKeyed (λ v. v.id) m
    → HasOnly code k (values m)
    → All (λ v. (v.authorization_code == code) ≡ false) (values (erase k m))
unfolding values erase
erased-lacks code k [] keyed only = tt
erased-lacks code k ((j, v) ∷ m) keyed only = elim (Bool-cases (j == k)) [
  | inl t ↦ rw t (erased-lacks code k m keyed.1 only.1)
  | inr f ↦ rw f (
    other-code v.authorization_code code j k v.id keyed.0 only.0 f,
    erased-lacks code k m keyed.1 only.1,
  )
]

module _ (config : Configuration) (request : Request) (library : Library) (now : ℕ) where
  -- The sessions are stored under their identifiers, and one alone has the code: after an exchange of the code, whatever
  -- comes of it, the code belongs to no session.
  pub code-not-replayed :
      (req : TokenRequest) (s : State (in_memory config request library now))
      (session : AuthnSession)
      → req.authorization_code ≢ ""
      → authn_session_by_authorization_code
          (in_memory config request library now)
          req.authorization_code
          s
        ≡ found session
      → IsKeyed (λ v. v.id) s.authn_sessions
      → HasOnly req.authorization_code session.id (values s.authn_sessions)
      → authn_session_by_authorization_code
          (in_memory config request library now)
          req.authorization_code
          (handle_authorization_code_grant_token_creation
            (in_memory config request library now)
            req
            s).1
        ≡ failed "entity not found"
  unfolding authn_session_by_authorization_code delete_authn_session
  code-not-replayed req s session given h keyed only =
      ap
        (λ m.
          entity_or_error
            (get_first_session (λ v. v.authorization_code == req.authorization_code) m))
        (session-consumed (in_memory config request library now) req s session given h)
      ∙ ap entity_or_error (
          find_first-none _ (values (erase session.id s.authn_sessions))
            (erased-lacks req.authorization_code session.id s.authn_sessions keyed only))

module _ (ctx : Context) where
  -- The message of a code that is not found.
  abbrev lost : Message AuthnSession
  lost = record {
    result = none;
    error = some (invalid_grant "invalid authorization code");
    crashes = true;
  }

  lookup-lost :
      (code message : String) (s : State ctx)
      → authn_session_by_authorization_code ctx code s ≡ failed message
      → get_session_by_authorization_code ctx code s ≡ (ok lost, s)
  unfolding get_session_by_authorization_code
  lookup-lost code message s h = ground arith

  parties-crash :
      (req : TokenRequest) (c : Client) (message : String) (s t : State ctx)
      → authn_session_by_authorization_code ctx req.authorization_code s ≡ failed message
      → client ctx req.client_authn s ≡ (ok c, t)
      → get_authenticated_client_and_session ctx req s ≡ (crash, t)
  unfolding get_authenticated_client_and_session ◌>>=◌ fault
  parties-crash req c message s t h a =
      ok-then (get_session_by_authorization_code ctx req.authorization_code) _ s s lost
        (lookup-lost req.authorization_code message s h)
      ∙ ok-then (client ctx req.client_authn) _ s t c a

  -- A request with a code that belongs to no session, from a client that authenticates, ends the
  -- process: the goroutine that looked the session up goes on with a nil session.
  pub unknown-code-crashes :
      (req : TokenRequest) (c : Client) (message : String) (s t : State ctx)
      → req.authorization_code ≢ ""
      → authn_session_by_authorization_code ctx req.authorization_code s ≡ failed message
      → client ctx req.client_authn s ≡ (ok c, t)
      → handle_authorization_code_grant_token_creation ctx req s ≡ (crash, t)
  unfolding handle_authorization_code_grant_token_creation
  unknown-code-crashes req c message s t given h a =
      passed-then _ _ _ s (not-is_empty _ given)
      ∙ crash-then (get_authenticated_client_and_session ctx req) _ s t
          (parties-crash req c message s t h a)
