-- ===== src/Storage/InMemory.antt =====
-- internal/storage/inmemory: the three managers. A map from IDs to pointers is an association list
-- whose order stands for the order in which Go ranges over the map.
pub mod Map
pub mod Laws
pub mod Refinement
use goidc.Base.{String, Bool, Option, none, some, List, ◌==◌}
use goidc.Base.Dict.{lookup, insert, erase}
use goidc.Model.Client.{Client}
use goidc.Model.Session.{AuthnSession, GrantSession}
use goidc.Storage.{Fetched, found, failed, ClientManager, AuthnSessionManager, GrantSessionManager}
use Map.{find_first, values, write_through}

abbrev pub entity_or_error : {V : Type 0} → Option V → Fetched V
entity_or_error none = failed "entity not found"
entity_or_error (some v) = found v

abbrev pub client_manager : ClientManager
client_manager = record {
  Store = List (String × Client);
  save = λ client clients. (none, insert client.id client clients);
  get = λ id clients. entity_or_error (lookup id clients);
  delete = λ id clients. (none, erase id clients);
  written = λ client clients. write_through client.id client clients;
}

-- AuthnSessionManager.getFirstSession
abbrev pub get_first_session :
    (AuthnSession → Bool) → List (String × AuthnSession) → Option AuthnSession
get_first_session condition sessions = find_first condition (values sessions)

abbrev pub authn_session_manager : AuthnSessionManager
authn_session_manager = record {
  Store = List (String × AuthnSession);
  save = λ session sessions. (none, insert session.id session sessions);
  get_by_callback_id = λ callback_id sessions.
      entity_or_error (get_first_session (λ s. s.callback_id == callback_id) sessions);
  get_by_authorization_code = λ authorization_code sessions.
      entity_or_error
        (get_first_session (λ s. s.authorization_code == authorization_code) sessions);
  get_by_request_uri = λ request_uri sessions.
      entity_or_error (get_first_session (λ s. s.request_uri == request_uri) sessions);
  delete = λ id sessions. (none, erase id sessions);
  written = λ session sessions. write_through session.id session sessions;
}

-- GrantSessionManager.getFirstToken
abbrev pub get_first_token :
    (GrantSession → Bool) → List (String × GrantSession) → Option GrantSession
get_first_token condition sessions = find_first condition (values sessions)

abbrev pub grant_session_manager : GrantSessionManager
grant_session_manager = record {
  Store = List (String × GrantSession);
  save = λ session sessions. (none, insert session.id session sessions);
  get_by_token_id =
      λ token_id sessions. entity_or_error (get_first_token (λ t. t.token_id == token_id) sessions);
  get_by_refresh_token = λ refresh_token sessions.
      entity_or_error (get_first_token (λ t. t.refresh_token == refresh_token) sessions);
  delete = λ id sessions. (none, erase id sessions);
  written = λ session sessions. write_through session.id session sessions;
}
