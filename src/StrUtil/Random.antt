-- ===== src/StrUtil/Random.antt =====
-- Random of internal/strutil/util.go. The numbers of crypto/rand are a stream, `rand i max` the
-- answer to the request number `i` for a number below `max`.
pub mod Bounds
use Prim.Native.Char.{Char}
use Prim.Native.String
use text.Mathlib.Text.{char_at?}
use goidc.Base.{ℕ, zero, suc, String, Option, none, some}
use goidc.Oidc.Effect.{Outcome, ok, panic}
use goidc.Storage.{Fetched, found, failed}

abbrev pub charset : String
charset = "abcdefghijklmnopqrstuvwxyzABCDEFGHIJKLMNOPQRSTUVWXYZ0123456789"

abbrev pub push_char : Char → Outcome (Fetched String) × ℕ → Outcome (Fetched String) × ℕ
push_char c (ok (found s), draws) = (ok (found (String.◌∷◌ c s)), draws)
push_char c r = r

-- What a round puts before the text of the rounds after it. An index out of range panics.
abbrev pub pushed : Option Char → ℕ → Outcome (Fetched String) × ℕ → Outcome (Fetched String) × ℕ
pushed none draws rest = (panic, draws)
pushed (some c) draws rest = push_char c rest

abbrev pub drawn : Fetched ℕ → ℕ → Outcome (Fetched String) × ℕ → Outcome (Fetched String) × ℕ
drawn (failed e) draws rest = (ok (failed e), draws)
drawn (found num) draws rest = pushed (char_at? charset num) draws rest

-- The loop over `i`, from the number `draws` of requests that were made before.
unfoldable pub random : (ℕ → ℕ → Fetched ℕ) → ℕ → ℕ → Outcome (Fetched String) × ℕ
random rand zero draws = (ok (found ""), draws)
random rand (suc length) draws =
    drawn (rand draws (String.len charset)) (suc draws) (random rand length (suc draws))
