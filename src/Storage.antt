-- ===== src/Storage.antt =====
-- The storage interfaces of pkg/goidc (ClientManager, AuthnSessionManager, GrantSessionManager).
-- A manager hands out pointers. What an assignment to a field of an object that it handed out does
-- to the store is the operation `written`: the in-memory managers keep that very pointer, so that
-- the store changes with it, and a database leaves the store as it is.
pub mod InMemory
use goidc.Base.{String, Option, ◌≡◌, ◌≢◌, none}
use goidc.Model.Client.{Client}
use goidc.Model.Session.{AuthnSession, GrantSession}

-- The results (value, nil) and (nil, error) of a call, the error by its text.
pub data Fetched {ℓ} (A : Type ℓ) : Type ℓ where
  found : A → Fetched A
  failed : String → Fetched A

-- A call that returns only an error gives `none` for nil, beside the store that it leaves.
pub record ClientManager : Type 1 where
  pub Store : Type 0
  pub save : Client → Store → Option String × Store
  pub get : String → Store → Fetched Client
  pub delete : String → Store → Option String × Store
  pub written : Client → Store → Store

pub record AuthnSessionManager : Type 1 where
  pub Store : Type 0
  pub save : AuthnSession → Store → Option String × Store
  pub get_by_callback_id : String → Store → Fetched AuthnSession
  pub get_by_authorization_code : String → Store → Fetched AuthnSession
  pub get_by_request_uri : String → Store → Fetched AuthnSession
  pub delete : String → Store → Option String × Store
  pub written : AuthnSession → Store → Store

pub record GrantSessionManager : Type 1 where
  pub Store : Type 0
  pub save : GrantSession → Store → Option String × Store
  pub get_by_token_id : String → Store → Fetched GrantSession
  pub get_by_refresh_token : String → Store → Fetched GrantSession
  pub delete : String → Store → Option String × Store
  pub written : GrantSession → Store → Store
