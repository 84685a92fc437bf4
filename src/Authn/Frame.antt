-- ===== src/Authn/Frame.antt =====
-- Authentication may fill the cache of a client's keys, and changes nothing but clients.
use goidc.Base.{ℕ, String, Option, none, some, List, ◌≡◌, refl, arith}
use goidc.Authn.{client, authenticate_client, client_or_error}
use goidc.Authn.ClientId.{ClientAuthnRequest, get_client_id}
use goidc.Authn.Assertion.{authenticate_with_private_key_jwt}
use goidc.Authn.Certificates.{authenticate_with_self_signed_tls_certificate}
use goidc.Model.Client.{Client}
use goidc.Oidc.Context.{Context, State, Response, client_written, client_by_id}
use goidc.Oidc.Effect.Frame.{Keeps, Keeps-bind, keeps_rules}
use goidc.Oidc.Keys.{client_public_key, fetch_public_jwks}

module _ (ctx : Context) where
  -- All of the state but the clients.
  abbrev pub besides_clients : State ctx → record {
    authn_sessions : ctx.authn_session_manager.Store;
    grant_sessions : ctx.grant_session_manager.Store;
    draws : ℕ;
    responses : List Response;
  }
  besides_clients s = record {
    authn_sessions = s.authn_sessions;
    grant_sessions = s.grant_sessions;
    draws = s.draws;
    responses = s.responses;
  }

  client_written_keeps :
      (c : Client) (s : State ctx) → besides_clients (client_written ctx c s) ≡ besides_clients s
  unfolding client_written
  client_written_keeps c s = ground arith

  pub fetch_public_jwks_keeps :
      (c : Client) (s : State ctx)
      → besides_clients (fetch_public_jwks ctx c s).1 ≡ besides_clients s
  unfolding fetch_public_jwks
  fetch_public_jwks_keeps c s = ground arith

  client_public_key_keeps :
      (k : String) (c : Client) (s : State ctx)
      → besides_clients (client_public_key ctx k c s).1 ≡ besides_clients s
  unfolding client_public_key
  client_public_key_keeps k c s = ground (arith, fetch_public_jwks_keeps c s)

  Keeps-private_key_jwt :
      (c : Client) (req : ClientAuthnRequest)
      → Keeps besides_clients (authenticate_with_private_key_jwt ctx c req)
  unfolding authenticate_with_private_key_jwt
  Keeps-private_key_jwt c req = record { at = λ s. ground arith }

  Keeps-self_signed :
      (c : Client) (req : ClientAuthnRequest)
      → Keeps besides_clients (authenticate_with_self_signed_tls_certificate ctx c req)
  unfolding authenticate_with_self_signed_tls_certificate
  Keeps-self_signed c req = record { at = λ s. ground arith }

  Keeps-authenticate_client :
      (c : Client) (req : ClientAuthnRequest)
      → Keeps besides_clients (authenticate_client ctx c req)
  unfolding authenticate_client
  Keeps-authenticate_client c req =
      search (keeps_rules, Keeps-private_key_jwt, Keeps-self_signed) depth 12

  Keeps-client_or_error : (o : Option String) → Keeps besides_clients (client_or_error ctx o)
  unfolding client_by_id
  Keeps-client_or_error none = record { at = λ s. refl }
  Keeps-client_or_error (some id) = record { at = λ s. ground arith }

  -- Whether the client authenticates or not, nothing but clients has changed.
  pub Keeps-client : (req : ClientAuthnRequest) → Keeps besides_clients (client ctx req)
  unfolding client
  Keeps-client req =
      Keeps-bind _ _ (Keeps-client_or_error (get_client_id ctx req))
        (λ c. Keeps-authenticate_client c req)
