-- ===== src/Authn/Proven.antt =====
-- What a client that has authenticated has shown (internal/authn/util.go).
pub mod Assertion
pub mod Certificate
use goidc.Base.{String, Bool, true, false, Option, none, some, if◌then◌else◌, ◌≡◌, refl}
use goidc.Authn.Assertion.{authenticate_with_private_key_jwt, authenticate_with_client_secret_jwt}
use goidc.Authn.Certificates.{
  authenticate_with_self_signed_tls_certificate, authenticate_with_tls_certificate,
}
use goidc.Authn.Proven.Assertion.{BySecret, ByKey}
use goidc.Authn.Proven.Certificate.{ByCertificate, BySubject}
use goidc.Authn.ClientId.{ClientAuthnRequest}
use goidc.Model.Client.{Client}
use goidc.Model.Const.ClientAuthn
use goidc.Oidc.Context.{Context, State, Run}
use goidc.Oidc.Effect.{Error, ok, check, pure, ◌>>◌}
use goidc.Oidc.Effect.Laws.{check-then-ok, pure-ok}

module _ (ctx : Context) (req : ClientAuthnRequest) where
  open ctx use {library, request}

  -- The client has shown its secret.
  abbrev pub HasSecret : Client → String → String → Type 0
  HasSecret c id secret =
      (c.id ≡ id) × (library.compare_hash_and_password c.hashed_secret secret ≡ true)

  -- Authentication leaves the client and the state as they are.
  abbrev pub IsUnchanged : Client → Client → State ctx → State ctx → Type 0
  IsUnchanged c d s t = (d ≡ c) × (t ≡ s)

  -- The proof that a method demands, for each of the seven methods, with the client `d` that the
  -- method returns.
  pub data IsProven (c d : Client) (s t : State ctx) : Type 0 where
    by_none :
        c.authn_method ≡ ClientAuthn.none_authn
        → c.id ≡ req.client_id
        → IsUnchanged c d s t
        → IsProven c d s t
    by_secret_post :
        c.authn_method ≡ ClientAuthn.secret_post
        → HasSecret c req.client_id req.client_secret
        → IsUnchanged c d s t
        → IsProven c d s t
    by_secret_basic :
        c.authn_method ≡ ClientAuthn.secret_basic
        → (id secret : String) → request.basic_auth ≡ some (id, secret)
        → HasSecret c id secret
        → IsUnchanged c d s t
        → IsProven c d s t
    by_private_key_jwt :
        c.authn_method ≡ ClientAuthn.private_key_jwt → ByKey ctx req c d s t → IsProven c d s t
    by_secret_jwt :
        c.authn_method ≡ ClientAuthn.secret_jwt
        → BySecret ctx req c
        → IsUnchanged c d s t
        → IsProven c d s t
    by_self_signed_tls :
        c.authn_method ≡ ClientAuthn.self_signed_tls
        → ByCertificate ctx req c d s t
        → IsProven c d s t
    by_tls :
        c.authn_method ≡ ClientAuthn.tls
        → BySubject ctx req c
        → IsUnchanged c d s t
        → IsProven c d s t

  -- An action that is one of two, by a test.
  chosen :
      {R : Type 0} (b : Bool) (m n : Run ctx Client) (s t : State ctx) (d : Client)
      → (b ≡ true → m s ≡ (ok d, t) → R)
      → (n s ≡ (ok d, t) → R)
      → (if b then m else n) s ≡ (ok d, t)
      → R
  chosen true m n s t d f g h = f refl h
  chosen false m n s t d f g h = g h

  -- A check that passes, and after which the client is returned.
  passed :
      {R : Type 0} (c d : Client) (s t : State ctx) (e : Option Error)
      → (e ≡ none → IsUnchanged c d s t → R)
      → (check e >> pure c) s ≡ (ok d, t)
      → R
  passed c d s t e f h = let (p, k) = check-then-ok e (pure c) s h in f p (pure-ok c s k)
