-- ===== src/Dcr/Validation/Registrable.antt =====
-- What a registration that passes the validations satisfies (internal/dcr/validation.go).
use goidc.Base.{
  Option, none, some, Bool, not, ◌||◌, String, true, false, List, [], ◌∷◌, ◌==◌, ◌≡◌, ◌≢◌, refl,
  arith, eq_iff, eq-of_==, All, all, any, contains, is_empty, if◌then◌else◌,
}
use goidc.Base.Text.{remove_spaces, trim}
use goidc.Dcr.Request.{DynamicClientRequest}
use goidc.Dcr.Validation.{
  is_nil, validate_subject_identifier_type, validate_authorization_detail_types, is_empty_list,
  validations, number_of_identifiers, has_no_jwks, validate_requested_scopes, validate_authn_method,
  validate_scopes, validate_jwks_are_required_for_private_key_jwt_authn,
  validate_jwks_is_required_when_self_signed_tls_authn, validate_tls_subject_info_when_tls_authn,
  validate_grant_types, validate_refresh_token_grant, validate_redirect_uris,
  validate_response_types, validate_open_id_scope_if_required, validate_dynamic_client_request,
}
use goidc.Dcr.Validation.Algorithms.{run_validations, invalid_request, refuse_if}
use goidc.Dcr.Validation.Known.{
  IsKnown, key-signature, secret-signature, id_token-signature, user_info-signature, jarm-signature,
  jar-signature, id_token-IsEncryption, user_info-IsEncryption, jarm-IsEncryption, jar-off,
  jar-parts, public-keys,
}
use goidc.Model.Client.{elements}
use goidc.Model.Const.ClientAuthn
use goidc.Model.Const.GrantType
use goidc.Oidc.Context.{Context}
use goidc.Oidc.Effect.{Verdict, ok, err, panic, crash}
use goidc.StrUtil.{contains_open_id, contains_offline_access, split_with_spaces}

eq_true : {s t : String} → s ≡ t → (s == t) ≡ true
eq_true {s = s} {t = t} e = (eq_iff s t).1 e

no-open-id-in_empty : contains_open_id "" ≡ false
unfolding contains_open_id remove_spaces trim
no-open-id-in_empty = refl

module _ (ctx : Context) where
  -- The demands on the client that is registered: one for each of the validations, of which that of
  -- the address of keys demands nothing.
  pub record IsRegistrable (req : DynamicClientRequest) : Type 0 where
    pub method_allowed : contains ctx.client_authn_methods req.authn_method ≡ true
    pub scopes_known :
        All
          (λ requested. any (λ scope. requested == scope.id) ctx.scopes ≡ true)
          (split_with_spaces req.scopes)
    pub grants_allowed : all (λ gt. contains ctx.grant_types gt) req.grant_types ≡ true
    pub public_client :
        req.authn_method ≡ ClientAuthn.none_authn
        → contains req.grant_types GrantType.client_credentials ≡ false
    pub introspection_method :
        contains req.grant_types GrantType.introspection ≡ true
        → contains ctx.introspection_client_authn_methods req.authn_method ≡ true
    pub offline_access :
        contains_offline_access req.scopes ≡ true
        → contains req.grant_types GrantType.refresh_token ≡ true
    pub redirect_given : req.redirect_uris ≢ []
    pub response_types_allowed :
        all (λ rt. contains ctx.response_types rt) (elements req.response_types) ≡ true
    pub implicit_available : contains ctx.grant_types GrantType.implicit ≡ true
    pub open_id_optional : ctx.open_id_scope_is_required ≡ false
    pub keys_given : req.authn_method ≡ ClientAuthn.private_key_jwt → has_no_jwks ctx req ≡ false
    pub certificate_given :
        req.authn_method ≡ ClientAuthn.self_signed_tls → has_no_jwks ctx req ≡ false
    pub subject_given : req.authn_method ≡ ClientAuthn.tls → number_of_identifiers ctx req ≡ 1
    pub subject_type_known :
        is_empty req.subject_identifier_type ≡ false
        → contains ctx.subject_identifier_types req.subject_identifier_type ≡ true
    pub detail_types_known :
        ctx.authorization_details_parameter_is_enabled ≡ true
        → all
            (λ dt. contains ctx.authorization_detail_types dt)
            (elements req.authorization_detail_types)
          ≡ true
    pub known : IsKnown ctx req

  run_validations-All : (vs : List Verdict) → run_validations vs ≡ ok tt → All (λ v. v ≡ ok tt) vs
  unfolding run_validations
  run_validations-All [] h = tt
  run_validations-All (ok tt ∷ vs) h = (refl, run_validations-All vs h)
  run_validations-All (err e ∷ vs) h = cc
  run_validations-All (panic ∷ vs) h = cc
  run_validations-All (crash ∷ vs) h = cc

  module _ (req : DynamicClientRequest) where
    scopes-known :
        (scopes : List String)
        → validate_requested_scopes ctx req scopes ≡ ok tt
        → All (λ requested. any (λ scope. requested == scope.id) ctx.scopes ≡ true) scopes
    scopes-known [] h = tt
    scopes-known (s ∷ scopes) h = ground (arith, scopes-known scopes)

    -- A test that lets pass is false.
    redirect-given :
        (uris : List String)
        → (if is_empty_list uris
            then invalid_request "at least one redirect uri must be informed"
            else ok tt)
          ≡ ok tt
        → uris ≢ []
    redirect-given [] h = cc
    redirect-given (u ∷ uris) h = ground arith

    method-allowed :
        validate_authn_method ctx req ≡ ok tt
        → contains ctx.client_authn_methods req.authn_method ≡ true
    unfolding validate_authn_method
    method-allowed h = ground arith

    grants-allowed :
        validate_grant_types ctx req ≡ ok tt
        → (all (λ gt. contains ctx.grant_types gt) req.grant_types ≡ true)
          × ((req.authn_method == ClientAuthn.none_authn) ≡ true
              → contains req.grant_types GrantType.client_credentials ≡ false)
    unfolding validate_grant_types
    grants-allowed h = (ground arith, λ e. ground arith)

    offline-access :
        validate_refresh_token_grant ctx req ≡ ok tt
        → contains_offline_access req.scopes ≡ true
        → contains req.grant_types GrantType.refresh_token ≡ true
    unfolding validate_refresh_token_grant
    offline-access h e = ground arith

    responses-allowed :
        validate_response_types ctx req ≡ ok tt
        → (all (λ rt. contains ctx.response_types rt) (elements req.response_types) ≡ true)
          × (contains ctx.grant_types GrantType.implicit ≡ true)
    unfolding validate_response_types
    responses-allowed h = (ground arith, ground arith)

    keys-given :
        validate_jwks_are_required_for_private_key_jwt_authn ctx req ≡ ok tt
        → (req.authn_method == ClientAuthn.private_key_jwt) ≡ true
        → has_no_jwks ctx req ≡ false
    unfolding validate_jwks_are_required_for_private_key_jwt_authn
    keys-given h e = ground arith

    certificate-given :
        validate_jwks_is_required_when_self_signed_tls_authn ctx req ≡ ok tt
        → (req.authn_method == ClientAuthn.self_signed_tls) ≡ true
        → has_no_jwks ctx req ≡ false
    unfolding validate_jwks_is_required_when_self_signed_tls_authn
    certificate-given h e = ground arith

    subject-given :
        validate_tls_subject_info_when_tls_authn ctx req ≡ ok tt
        → (req.authn_method == ClientAuthn.tls) ≡ true
        → number_of_identifiers ctx req ≡ 1
    unfolding validate_tls_subject_info_when_tls_authn
    subject-given h e = ground arith

    introspection-method :
        validate_grant_types ctx req ≡ ok tt
        → contains req.grant_types GrantType.introspection ≡ true
        → contains ctx.introspection_client_authn_methods req.authn_method ≡ true
    unfolding validate_grant_types
    introspection-method h e = ground arith

    subject-type :
        validate_subject_identifier_type ctx req ≡ ok tt
        → is_empty req.subject_identifier_type ≡ false
        → contains ctx.subject_identifier_types req.subject_identifier_type ≡ true
    unfolding validate_subject_identifier_type
    subject-type h e = ground arith

    types-known :
        (enabled : Bool) (types : Option (List String))
        → (if not enabled || is_nil types
            then ok tt
            else refuse_if
                (not (all (λ dt. contains ctx.authorization_detail_types dt) (elements types)))
                "authorization detail type not supported")
          ≡ ok tt
        → enabled ≡ true
        → all (λ dt. contains ctx.authorization_detail_types dt) (elements types) ≡ true
    types-known enabled none h e = refl
    types-known enabled (some types) h e = ground arith

    detail-types :
        validate_authorization_detail_types ctx req ≡ ok tt
        → ctx.authorization_details_parameter_is_enabled ≡ true
        → all
            (λ dt. contains ctx.authorization_detail_types dt)
            (elements req.authorization_detail_types)
          ≡ true
    unfolding validate_authorization_detail_types
    detail-types h e =
        types-known ctx.authorization_details_parameter_is_enabled req.authorization_detail_types h
          e

    no-open-id-in : (scopes : String) → is_empty scopes ≡ true → contains_open_id scopes ≡ false
    no-open-id-in scopes h = rw (eq-of_== scopes "" h) no-open-id-in_empty

    no-open-id :
        validate_open_id_scope_if_required ctx req ≡ ok tt → ctx.open_id_scope_is_required ≡ false
    unfolding validate_open_id_scope_if_required
    no-open-id h = ground (arith, no-open-id-in req.scopes)

    -- A registration that the validations let pass satisfies the demands on a client.
    pub validated-IsRegistrable :
        validate_dynamic_client_request ctx req ≡ ok tt → IsRegistrable req
    unfolding validate_dynamic_client_request validate_scopes validate_redirect_uris
    validated-IsRegistrable h =
        let passed = run_validations-All (validations ctx req) h in
        let later = passed.1.1.1.1 in
        let last = later.1.1.1.1 in
        let ends = last.1.1.1.1 in
        let jar = ends.1.1.1.1.1 in
        record {
          method_allowed = method-allowed passed.0;
          scopes_known = scopes-known (split_with_spaces req.scopes) passed.1.0;
          grants_allowed = (grants-allowed later.1.1.1.0).0;
          public_client = λ e. (grants-allowed later.1.1.1.0).1 (eq_true e);
          offline_access = offline-access last.0;
          redirect_given = redirect-given req.redirect_uris last.1.0;
          response_types_allowed = (responses-allowed last.1.1.0).0;
          implicit_available = (responses-allowed last.1.1.0).1;
          open_id_optional = no-open-id last.1.1.1.0;
          keys_given = λ e. keys-given later.0 (eq_true e);
          certificate_given = λ e. certificate-given later.1.0 (eq_true e);
          subject_given = λ e. subject-given later.1.1.0 (eq_true e);
          introspection_method = introspection-method later.1.1.1.0;
          subject_type_known = subject-type ends.0;
          detail_types_known = detail-types jar.1.1.1.1.1.1.0;
          known = record {
            key_signature = λ e. key-signature ctx req passed.1.1.0 (eq_true e);
            secret_signature = λ e. secret-signature ctx req passed.1.1.1.0 (eq_true e);
            id_token_signature = id_token-signature ctx req ends.1.0;
            user_info_signature = user_info-signature ctx req ends.1.1.1.0;
            jarm_signature = jarm-signature ctx req jar.1.1.0;
            jar_signature = jar-signature ctx req jar.0;
            id_token_encryption = id_token-IsEncryption ctx req ends.1.1.0;
            user_info_encryption = user_info-IsEncryption ctx req ends.1.1.1.1.0;
            jarm_encryption = jarm-IsEncryption ctx req jar.1.1.1.0;
            jar_encryption_off = jar-off ctx req jar.1.0;
            jar_key_known = λ e. (jar-parts ctx req jar.1.0 e).0;
            jar_content_known = λ e. (jar-parts ctx req jar.1.0 e).1;
            keys_valid = public-keys ctx req jar.1.1.1.1.0;
          };
        }
