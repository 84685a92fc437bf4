-- ===== src/Api/Deleted.antt =====
-- A client is deleted over HTTP only with its registration token (internal/dcr/api.go).
use goidc.Base.{
  ◌≤◌, ℕ, String, Bool, true, false, Option, none, some, [], ◌≡◌, refl, ap, sym, subst, arith,
  is_empty, if◌then◌else◌,
}
use goidc.Api.{
  Body, error_map, Writer, fresh, Connection, Failure, of_server, of_text, write, write_error,
  write_header, answer, sent, or_status_500, Answer,
}
use goidc.Api.Dcr.{delete_handler, request_for, refused}
use goidc.Api.Laws.{status_code-bound}
use goidc.Dcr.{remove}
use goidc.Dcr.Access.{IsShown, remove-ok}
use goidc.Model.Client.{Client}
use goidc.Oidc.Context.{Context, State, delete_client}
use goidc.Oidc.Effect.{ok, err, panic, crash, base_error, code, description, Verdict}
use goidc.Oidc.ErrorCode
use goidc.Oidc.Http.{bearer_token}
use goidc.Oidc.ErrorCode.{status_code}

-- Whether the status is that of a deletion.
abbrev pub IsDeleted : Writer → Type 0
IsDeleted w = w.status ≡ some 204

module _ (connection : Connection) where
  abbrev opened : ℕ → Writer
  opened n = record { status = some n; content_type = "application/json"; bodies = [] }

  sent-not-IsDeleted :
      (b : Body) (n : ℕ) (o : Option String)
      → 400 ≤ n
      → ¬ IsDeleted (or_status_500 connection (sent b o (opened n)))
  sent-not-IsDeleted b n none bound h = ground arith
  sent-not-IsDeleted b n (some e) bound h = ground arith

  written-not-IsDeleted :
      (d : Bool) (b : Body) (n : ℕ)
      → 400 ≤ n
      → ¬ IsDeleted (
          or_status_500 connection
            (if d then (none, fresh) else sent b (connection.send b) (opened n)))
  written-not-IsDeleted true b n bound h = cc
  written-not-IsDeleted false b n bound h = sent-not-IsDeleted b n (connection.send b) bound h

  error-not-IsDeleted : (f : Failure) → ¬ IsDeleted (write_error connection f fresh)
  unfolding write_error write
  error-not-IsDeleted (of_server e) =
      written-not-IsDeleted connection.is_done (error_map (code e) (description e))
        (status_code (code e)) (status_code-bound (code e))
  error-not-IsDeleted (of_text e) =
      written-not-IsDeleted connection.is_done (error_map ErrorCode.internal_error e) 500
        (omega arith)

  module _ (ctx : Context) where
    removed :
        (r : Verdict × State ctx)
        → IsDeleted (answer ctx connection (λ u w. write_header 204 w) fresh r).1
        → r ≡ (ok tt, (answer ctx connection (λ u w. write_header 204 w) fresh r).2)
    unfolding answer
    removed (ok u, s) h = refl
    removed (err e, s) h = absurd (error-not-IsDeleted (of_server e) h)
    removed (panic, s) h = cc
    removed (crash, s) h = cc

    shown :
        (b : Bool) (s : State ctx) (a : Answer ctx)
        → IsDeleted (if b then refused ctx connection fresh s else a).1
        → (if b then refused ctx connection fresh s else a) ≡ a
    shown true s a h =
        absurd
          (error-not-IsDeleted (of_server (base_error ErrorCode.access_denied "no token found")) h)
    shown false s a h = refl

    -- A request to delete a client that is answered with 204, No Content, has shown the registration
    -- token of the client that its path names as its bearer token, and the client is deleted.
    pub delete_handler-ok :
        (id : String) (s : State ctx)
        → IsDeleted (delete_handler ctx connection id fresh s).1
        → (c : Client) × IsShown ctx (request_for ctx id) c s
          × (delete_client ctx id s ≡ (none, (delete_handler ctx connection id fresh s).2))
    unfolding delete_handler request_for
    delete_handler-ok id s h =
        let outcome : Verdict × State ctx = remove ctx (request_for ctx id) s in
        let answered : Answer ctx =
          answer ctx connection (λ u w. write_header 204 w) fresh outcome in
        let same : delete_handler ctx connection id fresh s ≡ answered =
          shown (is_empty (bearer_token ctx)) s answered h in
        let gone : outcome ≡ (ok tt, answered.2) =
          removed outcome (subst (λ a. IsDeleted a.1) same h) in
        let (c, is_shown, d) = remove-ok ctx (request_for ctx id) s answered.2 gone in
        (c, is_shown, subst (λ t. delete_client ctx id s ≡ (none, t)) (ap (λ a. a.2) (sym same)) d)
