-- ===== src/Provider/Routes.antt =====
-- The routes of the two servers of a provider (Handler and mtlsHandler of pkg/provider/provider.go).
use goidc.Base.{String, Bool, List, [], ◌∷◌, ◌++◌, ◌<>◌, if◌then◌else◌}
use goidc.Model.Const.Endpoint
use goidc.Provider.Defaults.{Provider}

-- The handlers that a route leads to.
pub data Handler : Type 0 where
  jwks : Handler
  push : Handler
  authorize : Handler
  callback : Handler
  token : Handler
  well_known : Handler
  user_info : Handler
  create_client : Handler
  update_client : Handler
  get_client : Handler
  delete_client : Handler
  introspect : Handler

-- A route: its method, the path after the prefix, and its handler.
pub record Route : Type 0 where
  pub method : String
  pub path : String
  pub handler : Handler

module _ (p : Provider) where
  abbrev route : String → String → Handler → Route
  route method path handler = record {
    method = method;
    path = p.path_prefix <> path;
    handler = handler;
  }

  abbrev pub routes_if : Bool → List Route → List Route
  routes_if b routes = if b then routes else []

  -- Provider.Handler
  unfoldable pub handler : List Route
  handler =
      route "GET" Endpoint.json_web_key_set jwks
      ∷ (routes_if p.par_is_enabled (route "POST" Endpoint.pushed_authorization_request push ∷ [])
          ++ route "GET" Endpoint.authorization authorize
            ∷ route "POST" (Endpoint.authorization <> "/{callback}") callback
            ∷ route "POST" Endpoint.token token
            ∷ route "GET" Endpoint.well_known well_known
            ∷ route "GET" Endpoint.user_info user_info
            ∷ route "POST" Endpoint.user_info user_info
            ∷ (routes_if p.dcr_is_enabled (
                  route "POST" Endpoint.dynamic_client create_client
                  ∷ route "PUT" (Endpoint.dynamic_client <> "/{client_id}") update_client
                  ∷ route "GET" (Endpoint.dynamic_client <> "/{client_id}") get_client
                  ∷ route "DELETE" (Endpoint.dynamic_client <> "/{client_id}") delete_client
                  ∷ [])
                ++ routes_if p.introspection_is_enabled
                    (route "POST" Endpoint.token_introspection introspect ∷ [])))

  -- Provider.mtlsHandler
  unfoldable pub mtls_handler : List Route
  mtls_handler =
      route "POST" Endpoint.token token
      ∷ route "GET" Endpoint.user_info user_info
      ∷ route "POST" Endpoint.user_info user_info
      ∷ (routes_if p.par_is_enabled (route "POST" Endpoint.pushed_authorization_request push ∷ [])
          ++ routes_if p.introspection_is_enabled
              (route "POST" Endpoint.token_introspection introspect ∷ []))
