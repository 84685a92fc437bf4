-- ===== src/Model/Const.antt =====
-- pkg/goidc/const.go. The types there are all `string`, so that any text can arrive.
pub mod Profile
pub mod GrantType
pub mod ResponseType
pub mod ResponseMode
pub mod ClientAuthn
pub mod TokenType
pub mod KeyUsage
pub mod CodeChallenge
pub mod Status
pub mod TokenFormat
pub mod TokenHint
pub mod Endpoint
pub mod Claim
pub mod ClaimType
use goidc.Base.{String}

abbrev pub assertion_type_jwt_bearer : String
assertion_type_jwt_bearer = "urn:ietf:params:oauth:client-assertion-type:jwt-bearer"
