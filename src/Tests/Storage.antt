-- ===== src/Tests/Storage.antt =====
-- The in-memory managers after some calls, and a token that is introspected after it was issued.
use goidc.Base.{
  All, String, false, List, [], ◌∷◌, ◌≡◌, ◌≢◌, refl, ◌==◌, ℕ, ap, subst, nat_eq, arith, eq_iff,
}
use goidc.Model.Client.{Client}
use goidc.Model.Session.{AuthnSession, GrantSession, TokenOptions}
use goidc.Oidc.Context.{State}
use goidc.Oidc.Effect.{Outcome}
use goidc.Storage.{Fetched, found, failed}
use goidc.Storage.InMemory.{client_manager, authn_session_manager, grant_session_manager}
use goidc.Storage.InMemory.Map.{values}
use goidc.Storage.InMemory.Refinement.{
  run_clients, run_authn_sessions, run_grant_sessions, clients-refine, authn_sessions-refine,
  grant_sessions-refine,
}
use goidc.Storage.InMemory.Refinement.Queries.{IsAnswer}
use goidc.Storage.InMemory.Refinement.Tables.{Operation, empty_table, after_all}
use goidc.Tests.Runs.{runs}
use goidc.Tests.Sample.{
  ctx, before, config, request, library, shop, session, grant, token_request, value_or,
}
use goidc.Token.Claims.{handle_token_creation}
use goidc.Token.ClientCredentials.{handle_client_credentials_grant_token_creation}
use goidc.Token.ClientCredentials.Issued.{IsActiveFor, IsOpaque, issued-active}
use goidc.Token.Model.{TokenResponse, empty_response}
use goidc.Token.RefreshToken.Scopes.{IsWithinGrant}
use goidc.Token.Stored.Reach.{Reach, Step, reachable-AreWithin}

abbrev renamed : Client
renamed = record shop { secret = "other" }

abbrev client_calls : List (Operation Client)
client_calls = Operation.save shop ∷ Operation.delete "none" ∷ Operation.written renamed ∷ []

clients-refine_example :
    client_manager.get "shop" (run_clients client_manager client_calls []) ≡ found renamed
unfolding runs
clients-refine_example = clients-refine client_calls "shop"

abbrev session_calls : List (Operation AuthnSession)
session_calls = Operation.save session ∷ []

authn_sessions-refine_example :
    IsAnswer
      (λ a. a.id)
      (λ a. a.callback_id == "code")
      (after_all (λ a. a.id) session_calls empty_table)
      (authn_session_manager.get_by_callback_id "code"
        (run_authn_sessions authn_session_manager session_calls []))
    × IsAnswer
        (λ a. a.id)
        (λ a. a.authorization_code == "code")
        (after_all (λ a. a.id) session_calls empty_table)
        (found session)
    × IsAnswer
        (λ a. a.id)
        (λ a. a.request_uri == "code")
        (after_all (λ a. a.id) session_calls empty_table)
        (authn_session_manager.get_by_request_uri "code"
          (run_authn_sessions authn_session_manager session_calls []))
unfolding runs
authn_sessions-refine_example = authn_sessions-refine session_calls "code"

abbrev grant_calls : List (Operation GrantSession)
grant_calls = Operation.save grant ∷ []

grant_sessions-refine_example :
    IsAnswer
      (λ g. g.id)
      (λ g. g.token_id == "refresh")
      (after_all (λ g. g.id) grant_calls empty_table)
      (grant_session_manager.get_by_token_id "refresh"
        (run_grant_sessions grant_session_manager grant_calls []))
    × IsAnswer
        (λ g. g.id)
        (λ g. g.refresh_token == "refresh")
        (after_all (λ g. g.id) grant_calls empty_table)
        (found grant)
unfolding runs
grant_sessions-refine_example = grant_sessions-refine grant_calls "refresh"

abbrev format_of : Fetched TokenOptions → String
format_of (found o) = o.token_format
format_of (failed e) = ""

abbrev length_of : Fetched TokenOptions → ℕ
length_of (found o) = o.opaque_token_length
length_of (failed e) = 0

-- The sample state before any token was issued.
abbrev idle : State ctx
idle = record before { grant_sessions = [] }

abbrev issued : Outcome TokenResponse × State ctx
issued = handle_client_credentials_grant_token_creation ctx token_request idle

abbrev issued_response : TokenResponse
issued_response = value_or empty_response issued.0

not_empty : issued_response ≢ empty_response
unfolding runs
not_empty h =
    let same : ◌≡◌ {A = String} "aaaaa" "" = ap (λ resp. resp.access_token) h in
    ground (arith, eq_iff "aaaaa" "")

-- The sample options, which are the only ones, are opaque and of another length.
sample-IsOpaque : IsOpaque ctx
sample-IsOpaque c scopes o e = (
  subst (λ f. (format_of f == "jwt") ≡ false) e refl,
  subst (λ f. nat_eq (length_of f) 99 ≡ false) e refl,
)

issued-active_example :
    IsActiveFor config request library 100 token_request issued_response.access_token idle issued.1
unfolding runs
issued-active_example =
    issued-active config request library 100 token_request idle issued.1 issued_response
      sample-IsOpaque tt refl not_empty refl

-- The sessions after one request to the token endpoint of a server that was just started.
reachable-AreWithin_example :
    All IsWithinGrant (values (handle_token_creation ctx token_request idle).1.grant_sessions)
unfolding runs
reachable-AreWithin_example =
    reachable-AreWithin config library
      (handle_token_creation ctx token_request idle).1.grant_sessions
      (Reach.step [] (handle_token_creation ctx token_request idle).1.grant_sessions Reach.start
        (Step.token_request request 100 token_request idle))
