-- ===== src/Model/Session/Assign.antt =====
-- What an authentication policy may call on its session (pkg/goidc/authn_session.go): each method
-- returns the session that its assignments leave. A time is in Unix seconds, as a natural number.
use goidc.Base.{ℕ, String, Option, List}
use goidc.Base.Dict.{insert, lookup}
use goidc.Model.Const.Claim
use goidc.Model.Session.{AuthnSession, set_claim_id_token}
use goidc.Model.Value.{AuthorizationDetail, Value}

unfoldable pub set_user_id : String → AuthnSession → AuthnSession
set_user_id user_id s = record s { subject = user_id }

unfoldable pub store_parameter : String → Value → AuthnSession → AuthnSession
unfolding insert
store_parameter key value s = record s { store = insert key value s.store }

-- Parameter, which is nil for a key that is missing
unfoldable pub parameter : String → AuthnSession → Option Value
unfolding lookup
parameter key s = lookup key s.store

unfoldable pub set_claim_token : String → Value → AuthnSession → AuthnSession
unfolding insert
set_claim_token claim value s = record s {
  additional_token_claims = insert claim value s.additional_token_claims;
}

unfoldable pub set_acr_claim_id_token : String → AuthnSession → AuthnSession
unfolding set_claim_id_token
set_acr_claim_id_token acr s =
    set_claim_id_token Claim.authentication_context_reference (Value.text acr) s

unfoldable pub set_auth_time_claim_id_token : ℕ → AuthnSession → AuthnSession
unfolding set_claim_id_token
set_auth_time_claim_id_token auth_time s =
    set_claim_id_token Claim.authentication_time (Value.number auth_time) s

unfoldable pub set_amr_claim_id_token : List String → AuthnSession → AuthnSession
unfolding set_claim_id_token
set_amr_claim_id_token amrs s =
    set_claim_id_token Claim.authentication_method_references (Value.texts amrs) s

unfoldable pub set_claim_user_info : String → Value → AuthnSession → AuthnSession
unfolding insert
set_claim_user_info claim value s = record s {
  additional_user_info_claims = insert claim value s.additional_user_info_claims;
}

unfoldable pub set_acr_claim_user_info : String → AuthnSession → AuthnSession
unfolding set_claim_user_info
set_acr_claim_user_info acr s =
    set_claim_user_info Claim.authentication_context_reference (Value.text acr) s

unfoldable pub set_auth_time_claim_user_info : ℕ → AuthnSession → AuthnSession
unfolding set_claim_user_info
set_auth_time_claim_user_info auth_time s =
    set_claim_user_info Claim.authentication_time (Value.number auth_time) s

unfoldable pub set_amr_claim_user_info : List String → AuthnSession → AuthnSession
unfolding set_claim_user_info
set_amr_claim_user_info amrs s =
    set_claim_user_info Claim.authentication_method_references (Value.texts amrs) s

unfoldable pub grant_scopes : String → AuthnSession → AuthnSession
grant_scopes scopes s = record s { granted_scopes = scopes }

unfoldable pub grant_authorization_details :
    Option (List AuthorizationDetail) → AuthnSession → AuthnSession
grant_authorization_details auth_details s = record s {
  granted_authorization_details = auth_details;
}
