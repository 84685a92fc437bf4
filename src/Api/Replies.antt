-- ===== src/Api/Replies.antt =====
-- The replies of the handlers of the token endpoint, introspection, user information, pushed requests,
-- registration and discovery (the files api.go of internal).
use goidc.Base.{
  ℕ, String, Bool, true, false, none, some, [], ◌∷◌, ◌≡◌, refl, ap, is_empty, if◌then◌else◌,
}
use goidc.Api.{
  Body, tokens, introspected, pushed, registered, user_claims, jwt, error_map, Writer, metadata,
  Connection, fresh, write, write_jwt, or_error, answer,
}
use goidc.Api.Authorize.{push_handler}
use goidc.Api.Dcr.{create_handler, update_handler, get_handler, request_for, refused}
use goidc.Api.Discovery.{well_known_handler}
use goidc.Api.Laws.{
  Reply, reply, reply_to, write-fresh, write_jwt-fresh, refused-reply, undecoded-reply,
  answer-reply_to,
}
use goidc.Api.Requests.{
  Readers, new_pushed_authorization_request, new_token_request, new_token_introspection_request,
}
use goidc.Api.Token.{token_handler, introspection_handler}
use goidc.Api.UserInfo.{user_info_handler}
use goidc.Authorize.Flow.{push_authorization}
use goidc.Dcr.{create, update, client}
use goidc.Dcr.Request.{DynamicClientRequest, DynamicClientResponse}
use goidc.Discovery.{well_known}
use goidc.Oidc.Context.{Context, State}
use goidc.Oidc.Effect.{Outcome, ok, err, base_error}
use goidc.Oidc.ErrorCode
use goidc.Oidc.Http.{bearer_token}
use goidc.Storage.{Fetched, found, failed}
use goidc.Token.Claims.{handle_token_creation}
use goidc.Token.Introspection.{introspect}
use goidc.UserInfo.{UserInfoResponse, handle_user_info_request}

-- The body of a reply about the user: a JWT if there is one, and else the claims.
abbrev pub info_body : UserInfoResponse → Body
info_body resp = if is_empty resp.jwt_claims then user_claims resp.claims else jwt resp.jwt_claims

module _ (ctx : Context) (connection : Connection) (is_open : connection.is_done ≡ false)
    (sends : (b : Body) → connection.send b ≡ none) where
  -- A handler that writes what `make` makes of the result of its operation.
  made-reply_to :
      {A : Type 0} (n : ℕ) (make : A → Body) (r : Outcome A × State ctx)
      → reply ctx (
          answer ctx connection
            (λ a w. or_error connection (write connection (make a) n w))
            fresh
            r)
        ≡ reply_to ctx n make r
  made-reply_to n make r =
      answer-reply_to connection is_open sends ctx n make
        (λ a w. or_error connection (write connection (make a) n w))
        (λ a. (
          record { status = some n; content_type = "application/json"; bodies = make a ∷ [] },
          ap (or_error connection) (write-fresh connection is_open sends (make a) n),
          refl,
          refl,
        ))
        r

  info-written :
      (b : Bool) (resp : UserInfoResponse)
      → (w : Writer) × (or_error connection (
            if b
            then write connection (user_claims resp.claims) 200 fresh
            else write_jwt connection resp.jwt_claims 200 fresh)
          ≡ w)
        × (w.status ≡ some 200)
        × (w.bodies ≡ (if b then user_claims resp.claims else jwt resp.jwt_claims) ∷ [])
  info-written true resp = (
    record {
      status = some 200;
      content_type = "application/json";
      bodies = user_claims resp.claims ∷ [];
    },
    ap (or_error connection) (write-fresh connection is_open sends (user_claims resp.claims) 200),
    refl,
    refl,
  )
  info-written false resp = (
    record {
      status = some 200;
      content_type = "application/jwt";
      bodies = jwt resp.jwt_claims ∷ [];
    },
    ap (or_error connection) (write_jwt-fresh connection is_open sends resp.jwt_claims 200),
    refl,
    refl,
  )

  user_info-reply_to :
      (s : State ctx)
      → reply ctx (user_info_handler ctx connection fresh s)
        ≡ reply_to ctx 200 info_body (handle_user_info_request ctx s)
  unfolding user_info_handler
  user_info-reply_to s =
      answer-reply_to connection is_open sends ctx 200 info_body
        (λ resp w. or_error connection (
          if is_empty resp.jwt_claims
          then write connection (user_claims resp.claims) 200 w
          else write_jwt connection resp.jwt_claims 200 w))
        (λ resp. info-written (is_empty resp.jwt_claims) resp) (handle_user_info_request ctx s)

  -- The replies of the handlers of tokens, introspection, pushed requests and the metadata.
  plain-replies :
      (readers : Readers) (s : State ctx)
      → (reply ctx (token_handler ctx connection fresh s)
          ≡ reply_to ctx 200 tokens
              (handle_token_creation ctx (new_token_request ctx.request.form) s))
        × (reply ctx (introspection_handler ctx connection fresh s)
            ≡ reply_to ctx 200 introspected
                (introspect ctx (new_token_introspection_request ctx.request.form) s))
        × (reply ctx (push_handler ctx connection readers fresh s)
            ≡ reply_to ctx 201 pushed (
                push_authorization ctx
                  (new_pushed_authorization_request readers ctx.request.form)
                  s))
        × (reply ctx (well_known_handler ctx connection fresh s)
            ≡ reply_to ctx 200 metadata (well_known ctx, s))
  unfolding token_handler introspection_handler push_handler well_known_handler
  plain-replies readers s = (
    made-reply_to 200 tokens _,
    made-reply_to 200 introspected _,
    made-reply_to 201 pushed _,
    made-reply_to 200 metadata _,
  )

  -- The reply to a request that wants a bearer token: without one, the operation is not called.
  abbrev pub reply_if_shown : Outcome DynamicClientResponse × State ctx → State ctx → Reply ctx
  reply_if_shown r s = reply_to ctx 200 registered (
      if is_empty (bearer_token ctx)
      then (err (base_error ErrorCode.access_denied "no token found"), s)
      else r)

  shown-reply_to :
      (b : Bool) (r : Outcome DynamicClientResponse × State ctx) (s : State ctx)
      → reply ctx (
          if b
          then refused ctx connection fresh s
          else answer ctx connection
              (λ resp w. or_error connection (write connection (registered resp) 200 w))
              fresh
              r)
        ≡ reply_to ctx 200 registered
            (if b then (err (base_error ErrorCode.access_denied "no token found"), s) else r)
  shown-reply_to true r s =
      refused-reply connection is_open sends ctx
        (base_error ErrorCode.access_denied "no token found") s
  shown-reply_to false r s = made-reply_to 200 registered r

  -- The registration that the body of a request asks for.
  abbrev pub reply_if_decoded :
      Fetched DynamicClientRequest → (DynamicClientRequest → Reply ctx) → State ctx → Reply ctx
  reply_if_decoded (found req) rest s = rest req
  reply_if_decoded (failed e) rest s =
      (ok tt, some 500, error_map ErrorCode.internal_error e ∷ [], s)

  create-reply_to :
      (body : Fetched DynamicClientRequest) (s : State ctx)
      → reply ctx (create_handler ctx connection body fresh s)
        ≡ reply_if_decoded body
            (λ req.
              reply_to ctx 201 registered
                (create ctx (record req { initial_access_token = bearer_token ctx }) s))
            s
  unfolding create_handler
  create-reply_to (failed e) s = undecoded-reply connection is_open sends ctx e s
  create-reply_to (found req) s = made-reply_to 201 registered _

  update-reply_to :
      (body : Fetched DynamicClientRequest) (id : String) (s : State ctx)
      → reply ctx (update_handler ctx connection body id fresh s)
        ≡ reply_if_decoded body
            (λ req.
              reply_if_shown
                (update ctx
                  (record req { id = id; registration_access_token = bearer_token ctx })
                  s)
                s)
            s
  unfolding update_handler
  update-reply_to (failed e) id s = undecoded-reply connection is_open sends ctx e s
  update-reply_to (found req) id s = shown-reply_to (is_empty (bearer_token ctx)) _ s

  get-reply_to :
      (id : String) (s : State ctx)
      → reply ctx (get_handler ctx connection id fresh s)
        ≡ reply_if_shown (client ctx (request_for ctx id) s) s
  unfolding get_handler
  get-reply_to id s = shown-reply_to (is_empty (bearer_token ctx)) _ s

  -- On a connection that is open and that everything can be sent on, each of eight handlers replies to
  -- its operation on what it reads of the request, and leaves its state: the result with the status
  -- for success, or the code and the description of its error with the status of the code, and
  -- nothing where it panics. A body that cannot be decoded is an internal error, and an update and a
  -- reading without a bearer token are denied, without a call of the operation.
  pub handlers-reply_to :
      (readers : Readers) (body : Fetched DynamicClientRequest) (id : String) (s : State ctx)
      → (reply ctx (token_handler ctx connection fresh s)
          ≡ reply_to ctx 200 tokens
              (handle_token_creation ctx (new_token_request ctx.request.form) s))
        × (reply ctx (introspection_handler ctx connection fresh s)
            ≡ reply_to ctx 200 introspected
                (introspect ctx (new_token_introspection_request ctx.request.form) s))
        × (reply ctx (user_info_handler ctx connection fresh s)
            ≡ reply_to ctx 200 info_body (handle_user_info_request ctx s))
        × (reply ctx (push_handler ctx connection readers fresh s)
            ≡ reply_to ctx 201 pushed (
                push_authorization ctx
                  (new_pushed_authorization_request readers ctx.request.form)
                  s))
        × (reply ctx (well_known_handler ctx connection fresh s)
            ≡ reply_to ctx 200 metadata (well_known ctx, s))
        × (reply ctx (create_handler ctx connection body fresh s)
            ≡ reply_if_decoded body
                (λ req.
                  reply_to ctx 201 registered
                    (create ctx (record req { initial_access_token = bearer_token ctx }) s))
                s)
        × (reply ctx (update_handler ctx connection body id fresh s)
            ≡ reply_if_decoded body
                (λ req.
                  reply_if_shown
                    (update ctx
                      (record req { id = id; registration_access_token = bearer_token ctx })
                      s)
                    s)
                s)
        × (reply ctx (get_handler ctx connection id fresh s)
            ≡ reply_if_shown (client ctx (request_for ctx id) s) s)
  handlers-reply_to readers body id s =
      let (token, introspection, push, document) = plain-replies readers s in
      (
        token,
        introspection,
        user_info-reply_to s,
        push,
        document,
        create-reply_to body s,
        update-reply_to body id s,
        get-reply_to id s,
      )
