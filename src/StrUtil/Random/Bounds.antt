-- ===== src/StrUtil/Random/Bounds.antt =====
-- What the random texts of internal/strutil/util.go are made of.
use Prim.Native.Char.{Char, len_utf8}
use Prim.Native.Nat.{Ordering, compare}
use Prim.Native.String
use Prim.Native.String.char_at.{nil, cons-zero, cons-suc}
use Prim.Native.String.len.{cons}
use text.Mathlib.Text.{char_at?, when}
use goidc.Base.{
  Bool, true, false, ◌&&◌, nat_eq, and-true, sym, ◌∙◌, subst, ℕ, zero, suc, ◌+◌, ◌-◌, String,
  Option, none, some, ◌≡◌, refl, ap, arith, Option-cases, inl, inr,
}
use goidc.Oidc.Effect.{Outcome, ok, err, panic, crash}
use goidc.Storage.{Fetched, found, failed}
use goidc.StrUtil.Random.{charset, push_char, pushed, drawn, random}

-- Every character of the text is one of the charset.
abbrev pub IsFromCharset : String → Type 0
IsFromCharset String.[] = Unit
IsFromCharset (String.◌∷◌ c s) = ((i : ℕ) × (char_at? charset i ≡ some c)) × IsFromCharset s

-- A text of the length, from the charset.
abbrev pub IsRandom : ℕ → String → Type 0
IsRandom length s = (String.len s ≡ length) × IsFromCharset s

-- Every character of the text takes one byte.
abbrev is_narrow : String → Bool
is_narrow String.[] = true
is_narrow (String.◌∷◌ c s) = nat_eq (len_utf8 c) 1 && is_narrow s

narrow-head : (c : Char) (s : String) → is_narrow (String.◌∷◌ c s) ≡ true → len_utf8 c ≡ 1
narrow-head c s h = ground arith

past-narrow : (o : Ordering) (c : Char) → len_utf8 c ≡ 1 → len_utf8 (String.past o c) ≡ 1
past-narrow Ordering.lt c h = refl
past-narrow Ordering.eq c h = h
past-narrow Ordering.gt c h = h

narrow-char_at : (s : String) → is_narrow s ≡ true → (i : ℕ) → len_utf8 (String.char_at s i) ≡ 1
narrow-char_at String.[] h i = ap len_utf8 (nil i)
narrow-char_at (String.◌∷◌ c s) h zero = ap len_utf8 (cons-zero c s) ∙ narrow-head c s h
narrow-char_at (String.◌∷◌ c s) h (suc i) =
    ap len_utf8 (cons-suc c s i)
    ∙ past-narrow (compare (suc i) (len_utf8 c)) (String.char_at s (suc i - len_utf8 c))
        (narrow-char_at s (and-true _ _ h).1 (suc i - len_utf8 c))

when-some : {A : Type 0} (b : Bool) (a x : A) → when b a ≡ some x → a ≡ x
when-some true a x h = ground arith
when-some false a x h = cc

charset-narrow : (i : ℕ) (c : Char) → char_at? charset i ≡ some c → len_utf8 c ≡ 1
charset-narrow i c h =
    ap len_utf8 (sym (when-some _ (String.char_at charset i) c h)) ∙ narrow-char_at charset refl i

len-cons :
    (c : Char) (s : String) → len_utf8 c ≡ 1 → String.len (String.◌∷◌ c s) ≡ suc (String.len s)
len-cons c s h =
    let counted : String.len (String.◌∷◌ c s) ≡ 1 + String.len s =
      cons c s ∙ ap (λ w. w + String.len s) h in
    omega arith

module _ (rand : ℕ → ℕ → Fetched ℕ) where
  push_char-found :
      (c : Char) (r : Outcome (Fetched String) × ℕ) (s : String) (draws : ℕ)
      → push_char c r ≡ (ok (found s), draws)
      → (rest : String) × (r ≡ (ok (found rest), draws)) × (s ≡ String.◌∷◌ c rest)
  push_char-found c (ok (found rest), d) s draws h = (rest, ground arith, ground arith)
  push_char-found c (ok (failed e), d) s draws h = cc
  push_char-found c (err e, d) s draws h = cc
  push_char-found c (panic, d) s draws h = cc
  push_char-found c (crash, d) s draws h = cc

  pushed-none :
      (o : Option Char) (draws after : ℕ) (rest : Outcome (Fetched String) × ℕ) (s : String)
      → o ≡ none
      → pushed o draws rest ≡ (ok (found s), after)
      → ⊥
  pushed-none none draws after rest s e h = cc
  pushed-none (some c) draws after rest s e h = cc

  drawn-found :
      (r : Fetched ℕ) (draws after : ℕ) (rest : Outcome (Fetched String) × ℕ) (s : String)
      → drawn r draws rest ≡ (ok (found s), after)
      → (i : ℕ) × (c : Char) × (char_at? charset i ≡ some c)
        × (push_char c rest ≡ (ok (found s), after))
  drawn-found (failed e) draws after rest s h = cc
  drawn-found (found num) draws after rest s h = elim (Option-cases (char_at? charset num)) [
    | inl e ↦ absurd (pushed-none _ draws after rest s e h)
    | inr (c, e) ↦ (num, c, e, subst (λ o. pushed o draws rest ≡ (ok (found s), after)) e h)
  ]

  -- A text that was made has the length asked for, and its characters are from the charset.
  pub random-IsRandom :
      (length draws : ℕ) (s : String) (after : ℕ)
      → random rand length draws ≡ (ok (found s), after)
      → IsRandom length s
  unfolding random
  random-IsRandom zero draws s after h =
      let empty : s ≡ "" = ground arith in subst (IsRandom 0) (sym empty) (refl, tt)
  random-IsRandom (suc length) draws s after h =
      let (i, c, e, k) =
        drawn-found (rand draws (String.len charset)) (suc draws) after
          (random rand length (suc draws)) s h in
      let (rest, q, p) = push_char-found c (random rand length (suc draws)) s after k in
      let shorter = random-IsRandom length (suc draws) rest after q in
      subst (IsRandom (suc length)) (sym p)
        (len-cons c rest (charset-narrow i c e) ∙ ap suc shorter.0, ((i, e), shorter.1))
