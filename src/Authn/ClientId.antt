-- ===== src/Authn/ClientId.antt =====
-- The client ID that a request names in its form, in its basic credentials and in its assertion
-- (internal/authn/util.go and model.go).
use goidc.Base.{
  String, Bool, true, Option, none, some, List, [], ◌∷◌, ◌++◌, is_empty, if◌then◌else◌, ◌==◌, all,
}
use goidc.Base.Dict.{lookup}
use goidc.Model.Value.{Claims, Value}
use goidc.Oidc.Context.{Context}
use goidc.Oidc.Keys.{client_signature_algorithms}
use goidc.Oidc.Library.{Jws}

pub record ClientAuthnRequest : Type 0 where
  pub client_id : String
  pub client_secret : String
  pub client_assertion_type : String
  pub client_assertion : String

abbrev form_value : Option String → String
form_value none = ""
form_value (some v) = v

-- NewClientAuthnRequest, on the form that was posted
unfoldable pub new_client_authn_request : List (String × String) → ClientAuthnRequest
unfolding lookup
new_client_authn_request form = record {
  client_id = form_value (lookup "client_id" form);
  client_secret = form_value (lookup "client_secret" form);
  client_assertion_type = form_value (lookup "client_assertion_type" form);
  client_assertion = form_value (lookup "client_assertion" form);
}

-- allEquals
unfoldable pub all_equals : List String → Bool
all_equals [] = true
all_equals (v ∷ vs) = all (λ value. value == v) (v ∷ vs)

module _ (ctx : Context) where
  open ctx use {library, request}

  abbrev issuer_text : Option Value → Option String
  issuer_text (some (Value.text client_id)) = some client_id
  issuer_text v = none

  abbrev issuer_of : Option Claims → Option String
  issuer_of none = none
  issuer_of (some claims) = issuer_text (lookup "iss" claims)

  abbrev issuer_of_parsed : Option Jws → Option String
  issuer_of_parsed none = none
  issuer_of_parsed (some parsed) = issuer_of (library.unsafe_claims parsed)

  -- getClientIDFromAssertion: the signature is not verified yet.
  unfoldable pub get_client_id_from_assertion : String → Option String
  unfolding lookup client_signature_algorithms
  get_client_id_from_assertion assertion =
      issuer_of_parsed (library.parse_signed assertion (client_signature_algorithms ctx))

  abbrev appended : List String → Option String → Option (List String)
  appended client_ids none = none
  appended client_ids (some client_id) = some (client_ids ++ client_id ∷ [])

  unfoldable pub append_client_id_from_assertion :
      List String → ClientAuthnRequest → Option (List String)
  unfolding get_client_id_from_assertion
  append_client_id_from_assertion client_ids req =
      if is_empty req.client_assertion
      then some client_ids
      else appended client_ids (get_client_id_from_assertion req.client_assertion)

  abbrev basic_client_id : Option (String × String) → String
  basic_client_id none = ""
  basic_client_id (some (client_id, client_secret)) = client_id

  abbrev add_non_empty : String → List String → List String
  add_non_empty client_id client_ids =
      if is_empty client_id then client_ids else client_ids ++ client_id ∷ []

  -- All the client IDs that are present must be equal, and one must be.
  abbrev pub agreed : Option (List String) → Option String
  agreed none = none
  agreed (some []) = none
  agreed (some (v ∷ vs)) = if all_equals (v ∷ vs) then some v else none

  unfoldable pub get_client_id : ClientAuthnRequest → Option String
  unfolding append_client_id_from_assertion all_equals
  get_client_id req = agreed (
      append_client_id_from_assertion
        (add_non_empty (basic_client_id request.basic_auth) (add_non_empty req.client_id [])) req)
