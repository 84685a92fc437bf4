-- ===== src/Lib.antt =====
-- goidc is an OpenID Connect and OAuth 2 server library in Go. This library models the server's
-- core: the data of clients and sessions, the storage behind it, client authentication, the token
-- endpoint with its three grants, token introspection, the user info endpoint, the authorization
-- endpoint, the dynamic registration of clients, the discovery document, and the provider that is
-- configured by options.
--
-- The parts and their files:
--
-- - Model: the data of pkg/goidc (client.go, model.go, authn_session.go, grant_session.go,
--   const.go). Model/Client has Client and its predicates, Model/Params AuthorizationParameters
--   and Merge, Model/Session the two kinds of sessions, the token options and what is known of a
--   token, with the methods for policies in Model/Session/Assign, Model/Const the constants.
-- - StrUtil: internal/strutil/util.go, the tests on scope texts (ContainsOpenID,
--   ContainsOfflineAccess) and random texts.
-- - Storage: the manager interfaces of pkg/goidc as records of operations, and in
--   Storage/InMemory the managers of internal/storage/inmemory that fill them.
--   Storage/InMemory/Refinement relates them to functions from IDs to objects.
-- - Oidc: internal/oidc/context.go and error.go. Oidc/Config is Configuration, Oidc/Context is
--   Context with the state that a call changes, Oidc/Effect the results of a handler, Oidc/Http
--   what is read from the request, Oidc/Keys the choice of keys, Oidc/Algorithms the lists of
--   algorithms that follow from them, Oidc/Library the packages outside the repository.
-- - Authn: internal/authn/util.go, from the client identifier of a request to the seven
--   authentication methods. Authn/Proven and its children say what each method has shown.
-- - Token: internal/token. Token/AuthzCode, Token/RefreshToken and Token/ClientCredentials are
--   the grants, Token/Make and Token/IdToken the tokens, Token/Pop and Token/Binding the proofs
--   of possession, Token/Pkce the code verifier, Token/Introspection and Token/Claims what is
--   done with a token that is presented, HandleTokenCreation included. Token/Stored follows the
--   stored grant sessions through the whole endpoint, by the rules of Oidc/Effect/Ensures.
-- - UserInfo: internal/userinfo/util.go.
-- - Authorize: internal/authorize. Authorize/Validation is validation.go, Authorize/Checks its
--   validations that may change the client, Authorize/Session session.go, Authorize/Jar jar.go,
--   Authorize/Redirect redirect.go, Authorize/Flow authorize.go, Authorize/Request model.go and
--   const.go.
-- - Dcr: internal/dcr. Dcr/Client is client.go, Dcr/Validation and Dcr/Validation/Algorithms
--   validation.go, Dcr util.go, Dcr/Request model.go. `create` and `update` share their end,
--   `register`.
-- - Discovery: internal/discovery/util.go, with the document of model.go in Discovery/Document.
-- - Provider: pkg/provider. Provider/Defaults is what New starts with, Provider/Options and its
--   children are the options, Provider/Validation validations.go, Provider/Routes the routes of
--   the two servers, Provider the functions New, TokenInfo and Client.
-- - Api: the HTTP handlers of the files api.go under internal, with the writing of responses of
--   internal/oidc/context.go in Api and the reading of forms and queries of the files model.go in
--   Api/Requests. A handler is a function on a writer and a state; Api/Token, Api/UserInfo,
--   Api/Authorize, Api/Dcr and Api/Discovery have one for each route. What json and strconv read,
--   and whether the connection takes what is written, are parameters.
-- - Base: lists, texts, association lists and the lemmas on them. Tests: the theorems at a sample
--   server.
--
-- A handler is a function from a state to an outcome and a state. The state has the static
-- clients, the stores of the three managers, the count of the random values drawn and the
-- responses sent. The outcome is a value, an error, a panic of the handler's goroutine, or a
-- crash, the panic of another goroutine, which ends the process. A goroutine of the token
-- endpoint is modelled up to the message that is received from it; the goroutine works on
-- sessions and the authentication beside it on clients, so that their order does not matter.
-- Where the handler returns before its goroutine has ended, the state is the one after both.
--
-- A handler of the authorization endpoint that holds a client is an action on the client and the
-- state, because AllowRedirectURI and the cache of a client's keys assign through the pointer.
--
-- The managers hand out pointers. The operation `written` of a manager is what an assignment
-- through such a pointer does to its store: the in-memory managers keep the pointer and change
-- with it.
--
-- Third-party packages (go-jose, bcrypt, net/http, crypto, uuid, regexp, go-cmp) are fields of
-- the record Library, and the functions of the configuration are functions, so that the theorems
-- hold for whatever they do. The clock reads the same throughout a call, in whole seconds.
-- Timestamps and lifetimes are natural numbers, and sums of them do not wrap around: a time in
-- seconds is far below 2^63. A nil map is an empty one. No definition runs on fuel: every loop of
-- the code goes through a list or a text.
--
-- A provider is a function of its options: an option is a function on the provider, and New
-- applies them in their order to the defaults and validates the result. A validation that indexes
-- a list of keys out of range panics, which is an outcome of its own.
--
-- Not modelled: the parsing of HTTP requests and of JSON, what the error plugin of the
-- authorization endpoint writes itself, the execution of HTML templates, which is a parameter,
-- the servers that Run and RunTLS start and their middlewares, the MongoDB storage and the driver
-- behind it, and the mutexes of the in-memory storage, where each call is one step.
pub mod Api
pub mod Authn
pub mod Authorize
pub mod Base
pub mod Dcr
pub mod Discovery
pub mod Model
pub mod Oidc
pub mod Provider
pub mod Storage
pub mod StrUtil
pub mod Tests
pub mod Token
pub mod UserInfo
