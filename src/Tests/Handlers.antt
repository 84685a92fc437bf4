-- ===== src/Tests/Handlers.antt =====
-- The handlers of the endpoints at the sample server.
use goidc.Base.{false, none, [], ◌∷◌, ◌≡◌, refl}
use goidc.Api.{Connection, fresh, tokens, introspected, pushed, metadata, registered}
use goidc.Authorize.Flow.{push_authorization}
use goidc.Dcr.{create, update, client}
use goidc.Discovery.{well_known}
use goidc.Token.Claims.{handle_token_creation}
use goidc.Token.Introspection.{introspect}
use goidc.UserInfo.{handle_user_info_request}
use goidc.Api.Authorize.{push_handler}
use goidc.Api.Dcr.{create_handler, update_handler, get_handler, delete_handler, request_for}
use goidc.Api.Deleted.{delete_handler-ok}
use goidc.Api.Discovery.{well_known_handler}
use goidc.Api.Laws.{reply, reply_to}
use goidc.Api.Replies.{info_body, handlers-reply_to}
use goidc.Api.Requests.{
  Readers, new_token_request, new_token_introspection_request, new_pushed_authorization_request,
}
use goidc.Api.Token.{token_handler, introspection_handler}
use goidc.Api.UserInfo.{user_info_handler}
use goidc.Dcr.Access.{IsShown}
use goidc.Dcr.Request.{DynamicClientRequest}
use goidc.Model.Client.{Client}
use goidc.Oidc.Context.{State, delete_client}
use goidc.Storage.{found}
use goidc.Tests.Runs.{runs}
use goidc.Tests.Sample.{ctx, before, shop, meta}

abbrev open_connection : Connection
open_connection = record { is_done = false; send = λ b. none }

abbrev no_readers : Readers
no_readers = record {
  atoi = λ text. none;
  claims_object = λ text. none;
  authorization_details = λ text. none;
}

abbrev registration : DynamicClientRequest
registration = record {
  id = "";
  initial_access_token = "";
  registration_access_token = "";
  secret = "";
  meta = meta;
}

handlers-reply_to_example :
    (reply ctx (token_handler ctx open_connection fresh before)
      ≡ reply_to ctx 200 tokens (handle_token_creation ctx (new_token_request []) before))
    × (reply ctx (introspection_handler ctx open_connection fresh before)
        ≡ reply_to ctx 200 introspected
            (introspect ctx (new_token_introspection_request []) before))
    × (reply ctx (user_info_handler ctx open_connection fresh before)
        ≡ reply_to ctx 200 info_body (handle_user_info_request ctx before))
    × (reply ctx (push_handler ctx open_connection no_readers fresh before)
        ≡ reply_to ctx 201 pushed
            (push_authorization ctx (new_pushed_authorization_request no_readers []) before))
    × (reply ctx (well_known_handler ctx open_connection fresh before)
        ≡ reply_to ctx 200 metadata (well_known ctx, before))
    × (reply ctx (create_handler ctx open_connection (found registration) fresh before)
        ≡ reply_to ctx 201 registered
            (create ctx (record registration { initial_access_token = "aaaaa" }) before))
    × (reply ctx (update_handler ctx open_connection (found registration) "shop" fresh before)
        ≡ reply_to ctx 200 registered (
            update ctx
              (record registration { id = "shop"; registration_access_token = "aaaaa" })
              before))
    × (reply ctx (get_handler ctx open_connection "shop" fresh before)
        ≡ reply_to ctx 200 registered (client ctx (request_for ctx "shop") before))
unfolding runs
handlers-reply_to_example =
    handlers-reply_to ctx open_connection refl (λ b. refl) no_readers (found registration) "shop"
      before

-- A state with a client whose registration token is the bearer token of the sample request.
abbrev with_shop : State ctx
with_shop = record before {
  clients = ("shop", record shop { hashed_registration_access_token = "aaaaa" }) ∷ [];
}

delete_handler-ok_example :
    (c : Client) × IsShown ctx (request_for ctx "shop") c with_shop
    × (delete_client ctx "shop" with_shop
        ≡ (none, (delete_handler ctx open_connection "shop" fresh with_shop).2))
unfolding runs
delete_handler-ok_example = delete_handler-ok open_connection ctx "shop" with_shop refl
