-- ===== src/Storage/InMemory/Refinement.antt =====
-- The in-memory managers refine a function from IDs to objects, over any sequence of operations
-- (internal/storage/inmemory).
pub mod Tables
pub mod Queries
use goidc.Base.{
  String, Bool, true, false, Option, none, some, List, [], ◌∷◌, ◌==◌, ◌≡◌, refl, ap, ◌∙◌,
  if◌then◌else◌,
}
use goidc.Base.Dict.{lookup}
use goidc.Model.Client.{Client}
use goidc.Model.Session.{AuthnSession, GrantSession}
use goidc.Storage.{Fetched, found, failed, ClientManager, AuthnSessionManager, GrantSessionManager}
use goidc.Storage.InMemory.{
  client_manager, authn_session_manager, grant_session_manager, entity_or_error,
}
use goidc.Storage.InMemory.Map.{find_first, values}
use Tables.{
  Operation, save, delete, written, perform_all, after_all, perform_all-refines, empty_table,
}
use Queries.{IsAnswer, search-refines}

-- A sequence of calls of a manager, whatever they return.
abbrev pub run_clients : (M : ClientManager) → List (Operation Client) → M.Store → M.Store
run_clients M [] s = s
run_clients M (save c ∷ ops) s = run_clients M ops (M.save c s).1
run_clients M (delete id ∷ ops) s = run_clients M ops (M.delete id s).1
run_clients M (written c ∷ ops) s = run_clients M ops (M.written c s)

abbrev pub run_authn_sessions :
    (M : AuthnSessionManager) → List (Operation AuthnSession) → M.Store → M.Store
run_authn_sessions M [] s = s
run_authn_sessions M (save a ∷ ops) s = run_authn_sessions M ops (M.save a s).1
run_authn_sessions M (delete id ∷ ops) s = run_authn_sessions M ops (M.delete id s).1
run_authn_sessions M (written a ∷ ops) s = run_authn_sessions M ops (M.written a s)

abbrev pub run_grant_sessions :
    (M : GrantSessionManager) → List (Operation GrantSession) → M.Store → M.Store
run_grant_sessions M [] s = s
run_grant_sessions M (save g ∷ ops) s = run_grant_sessions M ops (M.save g s).1
run_grant_sessions M (delete id ∷ ops) s = run_grant_sessions M ops (M.delete id s).1
run_grant_sessions M (written g ∷ ops) s = run_grant_sessions M ops (M.written g s)

clients-performed :
    (ops : List (Operation Client)) (m : List (String × Client))
    → run_clients client_manager ops m ≡ perform_all (λ c. c.id) ops m
clients-performed [] m = refl
clients-performed (save c ∷ ops) m = clients-performed ops _
clients-performed (delete j ∷ ops) m = clients-performed ops _
clients-performed (written c ∷ ops) m = clients-performed ops _

authn_sessions-performed :
    (ops : List (Operation AuthnSession)) (m : List (String × AuthnSession))
    → run_authn_sessions authn_session_manager ops m ≡ perform_all (λ a. a.id) ops m
authn_sessions-performed [] m = refl
authn_sessions-performed (save a ∷ ops) m = authn_sessions-performed ops _
authn_sessions-performed (delete j ∷ ops) m = authn_sessions-performed ops _
authn_sessions-performed (written a ∷ ops) m = authn_sessions-performed ops _

grant_sessions-performed :
    (ops : List (Operation GrantSession)) (m : List (String × GrantSession))
    → run_grant_sessions grant_session_manager ops m ≡ perform_all (λ g. g.id) ops m
grant_sessions-performed [] m = refl
grant_sessions-performed (save g ∷ ops) m = grant_sessions-performed ops _
grant_sessions-performed (delete j ∷ ops) m = grant_sessions-performed ops _
grant_sessions-performed (written g ∷ ops) m = grant_sessions-performed ops _

-- After any calls that start from an empty store, the client manager answers for an ID what the
-- function that the calls describe has for it.
pub clients-refine :
    (ops : List (Operation Client)) (id : String)
    → client_manager.get id (run_clients client_manager ops [])
      ≡ entity_or_error (after_all (λ c. c.id) ops empty_table id)
unfolding lookup
clients-refine ops id =
    ap (λ m. entity_or_error (lookup id m)) (clients-performed ops [])
    ∙ ap entity_or_error (perform_all-refines (λ c. c.id) ops [] id)

-- After any calls that start from an empty store, the three searches of the manager of
-- authentication sessions are answered by the function that the calls describe: a session that
-- satisfies the condition and stands under its ID, or an error where there is none.
pub authn_sessions-refine :
    (ops : List (Operation AuthnSession)) (text : String)
    → let s = run_authn_sessions authn_session_manager ops [] in
      let table = after_all (λ a. a.id) ops empty_table in
      IsAnswer
        (λ a. a.id)
        (λ a. a.callback_id == text)
        table
        (authn_session_manager.get_by_callback_id text s)
      × IsAnswer
          (λ a. a.id)
          (λ a. a.authorization_code == text)
          table
          (authn_session_manager.get_by_authorization_code text s)
      × IsAnswer
          (λ a. a.id)
          (λ a. a.request_uri == text)
          table
          (authn_session_manager.get_by_request_uri text s)
authn_sessions-refine ops text = rw (authn_sessions-performed ops []) (
  search-refines (λ a. a.id) (λ a. a.callback_id == text) ops,
  search-refines (λ a. a.id) (λ a. a.authorization_code == text) ops,
  search-refines (λ a. a.id) (λ a. a.request_uri == text) ops,
)

-- After any calls that start from an empty store, the two searches of the manager of grant sessions
-- are answered by the function that the calls describe.
pub grant_sessions-refine :
    (ops : List (Operation GrantSession)) (text : String)
    → let s = run_grant_sessions grant_session_manager ops [] in
      let table = after_all (λ g. g.id) ops empty_table in
      IsAnswer
        (λ g. g.id)
        (λ g. g.token_id == text)
        table
        (grant_session_manager.get_by_token_id text s)
      × IsAnswer
          (λ g. g.id)
          (λ g. g.refresh_token == text)
          table
          (grant_session_manager.get_by_refresh_token text s)
grant_sessions-refine ops text = rw (grant_sessions-performed ops []) (
  search-refines (λ g. g.id) (λ g. g.token_id == text) ops,
  search-refines (λ g. g.id) (λ g. g.refresh_token == text) ops,
)
