-- ===== src/Model/Session/Info.antt =====
-- The map that TokenInfo.MarshalJSON of pkg/goidc/model.go encodes.
use goidc.Base.{
  String, true, false, Option, none, some, List, [], ◌∷◌, is_empty, not, ◌++◌, if◌then◌else◌,
}
use goidc.Base.Dict.{copy, insert}
use goidc.Model.Const.Claim
use goidc.Model.Session.{TokenInfo}
use goidc.Model.Value.{AuthorizationDetail, Claims, Value}

abbrev pub with_details : Option (List AuthorizationDetail) → Claims → Claims
unfolding insert
with_details none params = params
with_details (some ds) params = insert Claim.authorization_details (Value.details (some ds)) params

abbrev pub confirmation_entry : String → String → List (String × String)
confirmation_entry key value = if is_empty value then [] else (key, value) ∷ []

abbrev pub with_confirmation : List (String × String) → Claims → Claims
unfolding insert
with_confirmation [] params = params
with_confirmation (e ∷ es) params = insert "cnf" (Value.confirmation (e ∷ es)) params

unfoldable pub marshal_json : TokenInfo → Claims
unfolding copy
marshal_json info =
    if not info.is_active
    then ("active", Value.flag false) ∷ []
    else copy info.additional_token_claims (
        with_confirmation
          (confirmation_entry "jkt" info.jwk_thumbprint
            ++ confirmation_entry "x5t#S256" info.client_certificate_thumbprint)
          (with_details info.authorization_details (
            ("active", Value.flag true)
            ∷ ("token_usage", Value.text info.token_usage)
            ∷ (Claim.subject, Value.text info.subject)
            ∷ (Claim.scope, Value.text info.scopes)
            ∷ (Claim.client_id, Value.text info.client_id)
            ∷ (Claim.expiry, Value.number info.expires_at_timestamp)
            ∷ [])))
