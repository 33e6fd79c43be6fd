-- ===== src/Orchestration/Tokens/Valid.antt =====
-- What `_validate_token` lets through, and that descriptor ids are such tokens.
use Prim.Native.Char.{Char, code}
use Prim.Native.Nat.{zero, suc}
use text.Mathlib.TextLemmas.{nil-append, cons-append}
use strongclaw.Prelude.{
  ℕ, String, ◌<>◌, Bool, true, false, ◌&&◌, ◌||◌, eqb, ◌≡◌, refl, arith, and_true, Bool-cases, ◌⊎◌,
  inl, inr, sym, ◌∙◌, subst,
}
use strongclaw.Prelude.Text.{strip, is_nonempty, take_text, lstrip, rstrip, is_space}
use strongclaw.Runtime.{Runtime}
use strongclaw.Result.{ok, empty_token, bad_token, require, require-eq-ok, ◌>>◌, ok-injective}
use strongclaw.Orchestration.Tokens.{
  every, is_token_char, in_class, fullmatch, validate_token, slugify, dash_runs, lstrip_dashes,
  rstrip_dashes, lower, translate, upper_letters, lower_letters, or_scope, stable_descriptor_id,
}

-- one or more of the characters [A-Za-z0-9._-]
pub record IsToken (s : String) : Type 0 where
  pub nonempty : is_nonempty s ≡ true
  pub chars : every is_token_char s ≡ true

or_false : (a b : Bool) → (a || (false && b)) ≡ a
or_false true b = refl
or_false false b = refl

every-in_class : (s : String) → every (in_class false) s ≡ every is_token_char s
unfolding every in_class
every-in_class String.[] = refl
every-in_class (String.◌∷◌ c s) = rw (or_false (is_token_char (code c)), every-in_class s) refl

-- a validated text is unchanged and a token
pub validate_token-eq-ok :
    (name value : String) {t : String}
    → validate_token name value ≡ ok t
    → (value ≡ t) × IsToken value
unfolding validate_token fullmatch
validate_token-eq-ok name value h =
    let (_, rest) =
      require-eq-ok (is_nonempty (strip value)) (empty_token name)
        (do require (fullmatch false value) (bad_token name value); ok value) h in
    let (full, rest') =
      require-eq-ok (fullmatch false value) (bad_token name value) (ok value) rest in
    let (some_text, in_every) = and_true (is_nonempty value) _ full in
    (
      ok-injective rest',
      record { nonempty = some_text; chars = sym (every-in_class value) ∙ in_every },
    )

token-not-space : (c : ℕ) → is_token_char c ≡ true → is_space c ≡ false
unfolding is_token_char is_space
token-not-space c h = ground arith

Text-cases : (s : String) → (s ≡ "") ⊎ ((c : Char) × (t : String) × (s ≡ String.◌∷◌ c t))
Text-cases String.[] = inl refl
Text-cases (String.◌∷◌ c s) = inr (c, s, refl)

lstrip_solid :
    (c : Char) (s : String) → is_space (code c) ≡ false → lstrip (String.◌∷◌ c s) ≡ String.◌∷◌ c s
unfolding lstrip
lstrip_solid c s h = rw h refl

rstrip_solid :
    (c : Char) (s : String)
    → is_space (code c) ≡ false
    → is_nonempty (rstrip (String.◌∷◌ c s)) ≡ true
unfolding rstrip
rstrip_solid c s h = elim (Text-cases (rstrip s)) [
  | inl e ↦ rw (e, h) refl
  | inr (d, t, e) ↦ rw e refl
]

every-head :
    (p : ℕ → Bool) (c : Char) (s : String) → every p (String.◌∷◌ c s) ≡ true → p (code c) ≡ true
unfolding every
every-head p c s h = (and_true (p (code c)) _ h).0

nonempty-strip : (s : String) → IsToken s → is_nonempty (strip s) ≡ true
unfolding strip
nonempty-strip String.[] t = absurd (cc (t.nonempty))
nonempty-strip (String.◌∷◌ c s) t =
    let solid = token-not-space (code c) (every-head is_token_char c s t.chars) in
    rw (lstrip_solid c s solid) (rstrip_solid c s solid)

-- a token is let through unchanged
pub IsToken-validate_token :
    (name value : String) → IsToken value → validate_token name value ≡ ok value
unfolding validate_token fullmatch
IsToken-validate_token name value t =
    rw (nonempty-strip value t, t.nonempty, every-in_class value, t.chars) refl

-- The steps of `_slugify` keep a text in a class that has the characters they put in.
every-append :
    (p : ℕ → Bool) (s t : String) → every p s ≡ true → every p t ≡ true → every p (s <> t) ≡ true
unfolding every
every-append p String.[] t hs ht = rw (nil-append t) ht
every-append p (String.◌∷◌ c s) t hs ht =
    let (hc, hs') = and_true (p (code c)) _ hs in
    rw (cons-append c s t, hc) (every-append p s t hs' ht)

nonempty-append : (s t : String) → is_nonempty s ≡ true → is_nonempty (s <> t) ≡ true
nonempty-append String.[] t h = absurd (cc)
nonempty-append (String.◌∷◌ c s) t h = rw (cons-append c s t) refl

every-take_text :
    (p : ℕ → Bool) (n : ℕ) (s : String) → every p s ≡ true → every p (take_text n s) ≡ true
unfolding every take_text
every-take_text p zero s h = refl
every-take_text p (suc n) String.[] h = refl
every-take_text p (suc n) (String.◌∷◌ c s) h =
    let (hc, hs) = and_true (p (code c)) _ h in rw hc (every-take_text p n s hs)

every-cons :
    (p : ℕ → Bool) (c : Char) (s : String)
    → p (code c) ≡ true
    → every p s ≡ true
    → every p (String.◌∷◌ c s) ≡ true
unfolding every
every-cons p c s hc hs = rw hc hs

dash_is_token : is_token_char 45 ≡ true
unfolding is_token_char
dash_is_token = refl

every-dash_runs : (run : Bool) (s : String) → every is_token_char (dash_runs run s) ≡ true
unfolding every dash_runs
every-dash_runs run String.[] = refl
every-dash_runs false (String.◌∷◌ c s) = elim (Bool-cases (is_token_char (code c))) [
  | inl e ↦ rw e (every-cons is_token_char c (dash_runs false s) e (every-dash_runs false s))
  | inr e ↦ rw e (rw dash_is_token (every-dash_runs true s))
]
every-dash_runs true (String.◌∷◌ c s) = elim (Bool-cases (is_token_char (code c))) [
  | inl e ↦ rw e (every-cons is_token_char c (dash_runs false s) e (every-dash_runs false s))
  | inr e ↦ rw e (every-dash_runs true s)
]

every-lstrip_dashes :
    (p : ℕ → Bool) (s : String) → every p s ≡ true → every p (lstrip_dashes s) ≡ true
unfolding every lstrip_dashes
every-lstrip_dashes p String.[] h = refl
every-lstrip_dashes p (String.◌∷◌ c s) h = elim (Bool-cases (eqb (code c) b'-')) [
  | inl e ↦ rw e (every-lstrip_dashes p s (and_true (p (code c)) _ h).1)
  | inr e ↦ rw e h
]

every-rstrip_dashes :
    (p : ℕ → Bool) (s : String) → every p s ≡ true → every p (rstrip_dashes s) ≡ true
unfolding every rstrip_dashes
every-rstrip_dashes p String.[] h = refl
every-rstrip_dashes p (String.◌∷◌ c s) h =
    let (hc, hs) = and_true (p (code c)) _ h in
    elim (Text-cases (rstrip_dashes s)) [
      | inl e ↦ elim (Bool-cases (eqb (code c) b'-')) [
        | inl dash ↦ rw (e, dash) refl
        | inr other ↦ rw (e, other) (rw hc refl)
      ]
      | inr (d, t, e) ↦ rw e (
          every-cons p c (String.◌∷◌ d t) hc
            (subst (λ u. every p u ≡ true) e (every-rstrip_dashes p s hs)))
    ]

every-translate :
    (p : ℕ → Bool) (from to : String) (c : Char)
    → every p to ≡ true
    → p (code c) ≡ true
    → p (code (translate from to c)) ≡ true
unfolding every translate
every-translate p String.[] to c ht hc = hc
every-translate p (String.◌∷◌ u from) String.[] c ht hc = hc
every-translate p (String.◌∷◌ u from) (String.◌∷◌ l to) c ht hc =
    let (hl, hto) = and_true (p (code l)) _ ht in
    elim (Bool-cases (eqb (code c) (code u))) [
      | inl e ↦ rw e hl
      | inr e ↦ rw e (every-translate p from to c hto hc)
    ]

every-lower :
    (p : ℕ → Bool) (s : String)
    → every p lower_letters ≡ true
    → every p s ≡ true
    → every p (lower s) ≡ true
unfolding every lower
every-lower p String.[] ha h = refl
every-lower p (String.◌∷◌ c s) ha h =
    let (hc, hs) = and_true (p (code c)) _ h in
    rw (every-translate p upper_letters lower_letters c ha hc) (every-lower p s ha hs)

or_scope-IsToken : (s : String) → every is_token_char s ≡ true → IsToken (or_scope s)
unfolding or_scope every is_token_char
or_scope-IsToken String.[] h = record { nonempty = refl; chars = refl }
or_scope-IsToken (String.◌∷◌ c s) h = record { nonempty = refl; chars = h }

-- A slug is a token, whatever it is made of.
pub slugify-IsToken : (value : String) → IsToken (slugify value)
unfolding slugify
slugify-IsToken value =
    let dashed = dash_runs false value in
    or_scope-IsToken _ (
      every-lower is_token_char _ (unfold every is_token_char in refl) (
        every-rstrip_dashes is_token_char _
          (every-lstrip_dashes is_token_char dashed (every-dash_runs false value))))

module _ (rt : Runtime) where
  -- So is a derived descriptor id, where digests are written in the characters of tokens.
  pub stable_descriptor_id-IsToken :
      (prefix seed : String)
      → every is_token_char (rt.sha256_hex seed) ≡ true
      → IsToken (stable_descriptor_id rt prefix seed)
  unfolding stable_descriptor_id
  stable_descriptor_id-IsToken prefix seed hex =
      let slug = slugify-IsToken prefix in
      let tail =
        every-append is_token_char "-" _ (unfold every is_token_char in refl)
          (every-take_text is_token_char 12 (rt.sha256_hex seed) hex) in
      record {
        nonempty = nonempty-append (slugify prefix) _ slug.nonempty;
        chars = every-append is_token_char (slugify prefix) _ slug.chars tail;
      }
