-- ===== src/Oidc/Library.antt =====
-- The packages outside the repository, as a record of the functions that the code calls: crypto,
-- bcrypt, go-jose, encoding/json, net/http, net/url, regexp, uuid and go-cmp. A type of theirs is a
-- record of the fields that the code reads.
use goidc.Base.{ℕ, String, Bool, Option, List}
use goidc.Model.Value.{AuthorizationDetail, Claims}
use goidc.Model.Params.{AuthorizationParameters}
use goidc.Storage.{Fetched}

-- crypto keys; what is in a public key is told apart by a number.
pub data Key : Type 0 where
  bytes : String → Key
  ed25519 : ℕ → Key
  ecdsa : ℕ → Key
  rsa : ℕ → Key
  other : ℕ → Key

-- jose.JSONWebKey
pub record Jwk : Type 0 where
  pub key_id : String
  pub algorithm : String
  pub usage : String
  pub key : Key
  pub certificate_thumbprint_sha256 : String
  pub certificate_thumbprint_sha1 : String

-- jose.Header of a parsed token; `typ` is its extra header "typ".
pub record JwsHeader : Type 0 where
  pub key_id : String
  pub typ : String
  pub jwk : Option Jwk

-- jwt.JSONWebToken, its headers and its text.
pub record Jws : Type 0 where
  pub headers : List JwsHeader
  pub text : String

-- jwt.Claims, the raw claims of the same token, and those of a DPoP proof.
pub record JwtClaims : Type 0 where
  pub id : String
  pub issuer : String
  pub subject : String
  pub audience : List String
  pub expiry : Option ℕ
  pub issued_at : Option ℕ
  pub raw : Claims
  pub htm : String
  pub htu : String
  pub ath : String
  pub request_client_id : String
  pub request : AuthorizationParameters

-- jwt.Expected; a field that is not set demands nothing.
pub record Expected : Type 0 where
  pub issuer : String
  pub subject : String
  pub any_audience : List String

-- x509.Certificate
pub record Certificate : Type 0 where
  pub raw : String
  pub subject : String
  pub dns_names : List String
  pub public_key : Key

-- The error of a function that can fail is `none`, or its text in a `failed` where the code passes
-- it on. Randomness and fresh IDs are streams, read one after another.
pub record Library : Type 0 where
  pub canonical_header_key : String → String
  pub query_unescape : String → Option String
  pub pem_decode : String → Option String
  pub parse_certificate : String → Option Certificate
  pub url_without_params : String → Option String
  pub to_lower : String → String
  pub match_string : String → String → Bool
  pub sha256 : String → String
  pub sha1 : String → String
  pub base64_url : String → String
  pub sha384 : String → String
  pub sha512 : String → String
  pub first_half : String → String
  pub compare_hash_and_password : String → String → Bool
  pub generate_from_password : String → String
  pub parse_signed : String → List String → Option Jws
  pub parse_signed_error : String → List String → String
  pub unsafe_claims : Jws → Option Claims
  pub verified_claims : Jws → Key → Option JwtClaims
  pub validate_claims : JwtClaims → Expected → ℕ → Bool
  pub jwk_valid : Jwk → Bool
  pub jwk_is_public : Jwk → Bool
  pub jwk_public : Jwk → Jwk
  pub jwk_thumbprint : Jwk → String
  pub keys_equal : Key → Key → Bool
  pub keys_by_id : List Jwk → String → List Jwk
  pub unmarshal_jwks : String → Fetched (List Jwk)
  pub http_get : String → Option (Fetched String)
  pub sign_claims : Jwk → String → Claims → Fetched String
  pub encrypt : Jwk → String → String → Fetched String
  pub decrypt_request_object :
      String → List String → List String → Option (String × (Key → Fetched String))
  pub details_equal : Option (List AuthorizationDetail) → Option (List AuthorizationDetail) → Bool
  pub rand_int : ℕ → ℕ → Fetched ℕ
  pub new_uuid : ℕ → String
  pub url_with_query : String → List (String × String) → Option String
  pub execute_template : String → List (String × String) → Option String
  pub encode_values : List (String × String) → String
