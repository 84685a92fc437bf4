-- ===== src/Token/Make/Bounds.antt =====
-- What the making of random texts and of opaque tokens (internal/token/make.go) returns.
use goidc.Base.{ℕ, String, Bool, true, false, if◌then◌else◌, ◌==◌, ◌≡◌, ap, sym, ◌∙◌, subst, arith}
use goidc.Model.Client.{Client}
use goidc.Model.Const.TokenFormat
use goidc.Oidc.Context.{Context, State}
use goidc.Oidc.Effect.{Outcome, ok}
use goidc.Oidc.Effect.Frame.{Keeps, keeps_rules}
use goidc.Oidc.Effect.Laws.{>>=-ok, fault-then-ok, pure-ok, pair-parts}
use goidc.Storage.{Fetched, found, failed}
use goidc.StrUtil.Random.{random}
use goidc.StrUtil.Random.Bounds.{IsRandom, random-IsRandom}
use goidc.Token.Make.{
  make, make_jwt_token, make_opaque_token, new_uuid, random_text, jkt_binding,
  value_or_internal_error,
}
use goidc.Token.Model.{GrantOptions, Token}

module _ (ctx : Context) where
  pub found-of_ok :
      (f : Fetched String) (a : String) → value_or_internal_error f ≡ ok a → f ≡ found a
  found-of_ok (failed e) a h = cc
  found-of_ok (found b) a h = ground arith

  pub text-IsRandom :
      (n : ℕ) (s t : State ctx) (a : String)
      → random_text ctx n s ≡ (ok (found a), t)
      → IsRandom n a
  unfolding random_text
  text-IsRandom n s t a h =
      let (r, q) = pair-parts h in
      random-IsRandom ctx.library.rand_int n s.draws a (random ctx.library.rand_int n s.draws).1
        (λ i. (r i, (random ctx.library.rand_int n s.draws).1))

  -- An opaque token is its own identifier, and a random text of the length of the options.
  pub make_opaque_token-IsRandom :
      (o : GrantOptions) (s t : State ctx) (token : Token)
      → make_opaque_token ctx o s ≡ (ok token, t)
      → (token.id ≡ token.value) × IsRandom o.opaque_token_length token.value
  unfolding make_opaque_token
  make_opaque_token-IsRandom o s t token h =
      let (drawn, u, p, k) = >>=-ok (random_text ctx o.opaque_token_length) _ s h in
      let (text, e, l) = fault-then-ok (value_or_internal_error drawn) _ u k in
      let (jkt, f, m) = fault-then-ok (jkt_binding ctx) _ u l in
      let (made, same) = pure-ok _ u m in
      (
        ap (λ x. x.id) made ∙ sym (ap (λ x. x.value) made),
        subst (IsRandom o.opaque_token_length) (sym (ap (λ x. x.value) made)) (
            text-IsRandom o.opaque_token_length s u text
              (p ∙ ap (λ x. (ok x, u)) (found-of_ok drawn text e))),
      )

  otherwise :
      {A : Type 0} (b : Bool) (m n : State ctx → Outcome A × State ctx) (s : State ctx)
      (r : Outcome A × State ctx)
      → b ≡ false
      → (if b then m else n) s ≡ r
      → n s ≡ r
  otherwise true m n s r e h = cc
  otherwise false m n s r e h = h

  pub make-opaque :
      (c : Client) (o : GrantOptions) (s t : State ctx) (token : Token)
      → (o.token_format == TokenFormat.jwt) ≡ false
      → make ctx c o s ≡ (ok token, t)
      → make_opaque_token ctx o s ≡ (ok token, t)
  unfolding make
  make-opaque c o s t token e h =
      otherwise (o.token_format == TokenFormat.jwt) (make_jwt_token ctx c o)
        (make_opaque_token ctx o) s (ok token, t) e h

  -- The grant sessions that are stored.
  abbrev pub grants : State ctx → ctx.grant_session_manager.Store
  grants s = s.grant_sessions

  pub Keeps-new_uuid : Keeps grants (new_uuid ctx)
  unfolding new_uuid
  Keeps-new_uuid = record { at = λ s. goidc.Base.refl }

  pub Keeps-random_text : (n : ℕ) → Keeps grants (random_text ctx n)
  unfolding random_text
  Keeps-random_text n = record { at = λ s. goidc.Base.refl }

  pub Keeps-make : (c : Client) (o : GrantOptions) → Keeps grants (make ctx c o)
  unfolding make make_jwt_token make_opaque_token
  Keeps-make c o = search (keeps_rules, Keeps-new_uuid, Keeps-random_text) depth 9
