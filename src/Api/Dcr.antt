-- ===== src/Api/Dcr.antt =====
-- The handlers of the registration of clients (internal/dcr/api.go). The body is what json.Decode
-- made of the request's body, the ID the path value "client_id".
use goidc.Base.{String, is_empty, if◌then◌else◌}
use goidc.Api.{
  Connection, Writer, Answer, of_server, of_text, registered, write, write_error, write_header,
  or_error, answer,
}
use goidc.Dcr.{create, update, client, remove}
use goidc.Dcr.Request.{DynamicClientRequest, empty_meta}
use goidc.Oidc.Context.{Context, State}
use goidc.Oidc.Effect.{ok, base_error}
use goidc.Oidc.ErrorCode
use goidc.Oidc.Http.{bearer_token}
use goidc.Storage.{Fetched, found, failed}

module _ (ctx : Context) where
  -- dynamicClientRequest{...} of the handlers that read and delete, whose other fields are zero
  unfoldable pub request_for : String → DynamicClientRequest
  unfolding bearer_token
  request_for id = record {
    id = id;
    initial_access_token = "";
    registration_access_token = bearer_token ctx;
    secret = "";
    meta = empty_meta;
  }

module _ (ctx : Context) (connection : Connection) where
  -- A request that does not come so far as to an operation.
  abbrev pub refused : Writer → State ctx → Answer ctx
  refused w s = (
    ok tt,
    write_error connection (of_server (base_error ErrorCode.access_denied "no token found")) w,
    s,
  )

  abbrev pub undecoded : String → Writer → State ctx → Answer ctx
  undecoded e w s = (ok tt, write_error connection (of_text e) w, s)

  -- HandlerCreate
  unfoldable pub create_handler : Fetched DynamicClientRequest → Writer → State ctx → Answer ctx
  unfolding answer write bearer_token create
  create_handler (failed e) w s = undecoded e w s
  create_handler (found req) w s =
      answer ctx connection
        (λ resp w. or_error connection (write connection (registered resp) 201 w)) w
        (create ctx (record req { initial_access_token = bearer_token ctx }) s)

  -- HandlerUpdate
  unfoldable pub update_handler :
      Fetched DynamicClientRequest → String → Writer → State ctx → Answer ctx
  unfolding answer write bearer_token update
  update_handler (failed e) id w s = undecoded e w s
  update_handler (found req) id w s =
      if is_empty (bearer_token ctx)
      then refused w s
      else answer ctx connection
          (λ resp w. or_error connection (write connection (registered resp) 200 w)) w
          (update ctx (record req { id = id; registration_access_token = bearer_token ctx }) s)

  -- HandlerGet
  unfoldable pub get_handler : String → Writer → State ctx → Answer ctx
  unfolding answer write bearer_token request_for client
  get_handler id w s =
      if is_empty (bearer_token ctx)
      then refused w s
      else answer ctx connection
          (λ resp w. or_error connection (write connection (registered resp) 200 w)) w
          (client ctx (request_for ctx id) s)

  -- HandlerDelete
  unfoldable pub delete_handler : String → Writer → State ctx → Answer ctx
  unfolding answer bearer_token request_for remove
  delete_handler id w s =
      if is_empty (bearer_token ctx)
      then refused w s
      else answer ctx connection (λ u w. write_header 204 w) w (remove ctx (request_for ctx id) s)
