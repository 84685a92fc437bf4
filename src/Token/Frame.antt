-- ===== src/Token/Frame.antt =====
-- Authentication and the making of tokens leave the authorization sessions alone.
use goidc.Base.{String, Option, none, some, ◌≡◌, refl, List}
use goidc.Model.Client.{Client}
use goidc.Oidc.Context.{Context, State}
use goidc.Oidc.Effect.Frame.{Keeps, keeps_rules}
use goidc.Token.Make.{make, make_jwt_token, make_opaque_token, new_uuid, random_text}
use goidc.Token.Model.{GrantOptions}

module _ (ctx : Context) where
  abbrev pub sessions : State ctx → ctx.authn_session_manager.Store
  sessions s = s.authn_sessions

  pub Keeps-new_uuid : Keeps sessions (new_uuid ctx)
  unfolding new_uuid
  Keeps-new_uuid = record { at = λ s. refl }

  pub Keeps-random_text : (n : goidc.Base.ℕ) → Keeps sessions (random_text ctx n)
  unfolding random_text
  Keeps-random_text n = record { at = λ s. refl }

  pub Keeps-make : (c : Client) (o : GrantOptions) → Keeps sessions (make ctx c o)
  unfolding make make_jwt_token make_opaque_token
  Keeps-make c o = search (keeps_rules, Keeps-new_uuid, Keeps-random_text) depth 9
