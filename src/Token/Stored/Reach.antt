-- ===== src/Token/Stored/Reach.antt =====
-- The grant sessions of a server whose token endpoint (internal/token) gets any requests.
use goidc.Base.{ℕ, String, Bool, true, false, List, [], ◌==◌, All, if◌then◌else◌}
use goidc.Model.Const.GrantType
use goidc.Model.Session.{GrantSession}
use goidc.Oidc.Config.{Configuration, Request}
use goidc.Oidc.Context.{Context, State, Run}
use goidc.Oidc.Effect.{base_error, raise}
use goidc.Oidc.Effect.Ensures.{Ensures-raise}
use goidc.Oidc.ErrorCode
use goidc.Oidc.Library.{Library}
use goidc.Storage.InMemory.Map.{values}
use goidc.Token.AuthzCode.{handle_authorization_code_grant_token_creation}
use goidc.Token.AuthzCode.Replay.{in_memory}
use goidc.Token.Claims.{handle_token_creation}
use goidc.Token.ClientCredentials.{handle_client_credentials_grant_token_creation}
use goidc.Token.Model.{TokenRequest}
use goidc.Token.RefreshToken.{handle_refresh_token_grant_token_creation}
use goidc.Token.RefreshToken.Scopes.{IsWithinGrant}
use goidc.Token.Stored.Within.{AreWithin, Stays, code-Stays, credentials-Stays}
use goidc.Token.Stored.Renewal.{refresh-Stays}

module _ (config : Configuration) (http : Request) (library : Library) (now : ℕ) where
  abbrev ctx : Context
  ctx = in_memory config http library now

  abbrev Within : List (String × GrantSession) → Type 0
  Within = AreWithin config http library now

  abbrev Keeping : {A : Type 0} → (A → Type 0) → Run ctx A → Type 0
  Keeping = Stays config http library now

  one-of_four :
      {A : Type 0} (a b c : Bool) (m n k l : Run ctx A)
      → Keeping (λ r. Unit) m
      → Keeping (λ r. Unit) n
      → Keeping (λ r. Unit) k
      → Keeping (λ r. Unit) l
      → Keeping (λ r. Unit) (if a then m else if b then n else if c then k else l)
  one-of_four true b c m n k l sm sn sk sl = sm
  one-of_four false true c m n k l sm sn sk sl = sn
  one-of_four false false true m n k l sm sn sk sl = sk
  one-of_four false false false m n k l sm sn sk sl = sl

  token-Stays : (req : TokenRequest) → Keeping (λ r. Unit) (handle_token_creation ctx req)
  unfolding handle_token_creation
  token-Stays req =
      one-of_four (req.grant_type == GrantType.client_credentials)
        (req.grant_type == GrantType.authorization_code) (req.grant_type == GrantType.refresh_token)
        (handle_client_credentials_grant_token_creation ctx req)
        (handle_authorization_code_grant_token_creation ctx req)
        (handle_refresh_token_grant_token_creation ctx req)
        (raise (base_error ErrorCode.unsupported_grant_type "unsupported grant type"))
        (credentials-Stays config http library now req) (code-Stays config http library now req)
        (refresh-Stays config http library now req) (Ensures-raise _)

  -- The token endpoint keeps every stored session within its grant, whatever comes of the request.
  pub token-AreWithin :
      (req : TokenRequest) (s : State ctx)
      → Within s.grant_sessions
      → Within (handle_token_creation ctx req s).1.grant_sessions
  token-AreWithin req s p = ((token-Stays req).at s p).0

-- What a request to the token endpoint, at any time and with whatever the rest of the state is then,
-- makes of the grant sessions.
pub data Step (config : Configuration) (library : Library)
    : List (String × GrantSession) → List (String × GrantSession) → Type 0 where
  token_request :
      (http : Request) (now : ℕ) (req : TokenRequest)
      (s : State (in_memory config http library now))
      → Step config library s.grant_sessions
          (handle_token_creation (in_memory config http library now) req s).1.grant_sessions

-- The grant sessions that a server can have after it was started.
pub data Reach (config : Configuration) (library : Library)
    : List (String × GrantSession) → Type 0 where
  start : Reach config library []
  step :
      (m n : List (String × GrantSession))
      → Reach config library m
      → Step config library m n
      → Reach config library n

module _ (config : Configuration) (library : Library) where
  step-Within :
      (m n : List (String × GrantSession))
      → Step config library m n
      → All IsWithinGrant (values m)
      → All IsWithinGrant (values n)
  step-Within m n (Step.token_request http now req s) p =
      token-AreWithin config http library now req s p

  -- Every grant session that a server can have, whatever requests its token endpoint got, is within
  -- its grant: the scopes of its tokens are among the scopes that were granted.
  pub reachable-AreWithin :
      (m : List (String × GrantSession)) → Reach config library m → All IsWithinGrant (values m)
  unfolding values
  reachable-AreWithin m Reach.start = tt
  reachable-AreWithin n (Reach.step m n' r s) = step-Within m n s (reachable-AreWithin m r)
