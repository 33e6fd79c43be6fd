-- ===== src/Orchestration/Identity/Unique.antt =====
-- An identity determines the five tokens that it is made of.
use Prim.Native.Char.{Char, code}
use text.Mathlib.TextLemmas.{nil-append, cons-append, head-eq_of_cons-eq, tail-eq_of_cons-eq}
use strongclaw.Prelude.{String, ◌<>◌, true, ◌≡◌, ◌≢◌, refl, sym, ap, ◌∙◌, and_true}
use strongclaw.Result.{Result, ◌>>=◌, ok, ok-injective, >>=-eq-ok}
use strongclaw.Orchestration.Tokens.{every, is_token_char, validate_token}
use strongclaw.Orchestration.Tokens.Valid.{IsToken, validate_token-eq-ok, IsToken-validate_token}
use strongclaw.Orchestration.Identity.{
  SessionScope, LockScope, join_five, build_session_identity, build_lock_identity,
}

token-ne-colon : (y : Char) → is_token_char (code y) ≡ true → ":" ≢ y
unfolding is_token_char
token-ne-colon y h e = absurd (cc (ap (λ (c : Char). is_token_char (code c)) e, h))

-- A text that starts with a token and a colon determines both parts.
split_colon :
    (a c b d : String)
    → every is_token_char a ≡ true
    → every is_token_char c ≡ true
    → a <> String.◌∷◌ ":" b ≡ c <> String.◌∷◌ ":" d
    → (a ≡ c) × (b ≡ d)
unfolding every
split_colon String.[] String.[] b d ha hc e =
    (refl, tail-eq_of_cons-eq (sym (nil-append _) ∙ e ∙ nil-append _))
split_colon String.[] (String.◌∷◌ y c) b d ha hc e = absurd (
    token-ne-colon y (and_true _ _ hc).0
      (head-eq_of_cons-eq (sym (nil-append _) ∙ e ∙ cons-append y c _)))
split_colon (String.◌∷◌ x a) String.[] b d ha hc e = absurd (
    token-ne-colon x (and_true _ _ ha).0
      (head-eq_of_cons-eq (sym (nil-append _) ∙ sym e ∙ cons-append x a _)))
split_colon (String.◌∷◌ x a) (String.◌∷◌ y c) b d ha hc e =
    let same = sym (cons-append x a _) ∙ e ∙ cons-append y c _ in
    let (ea, eb) =
      split_colon a c b d (and_true _ _ ha).1 (and_true _ _ hc).1 (tail-eq_of_cons-eq same) in
    (cc (ea, head-eq_of_cons-eq same), eb)

colon-append : (b : String) → ":" <> b ≡ String.◌∷◌ ":" b
colon-append b = cons-append ":" "" b ∙ ap (String.◌∷◌ ":") (nil-append b)

split_colon_text :
    (a c b d : String)
    → every is_token_char a ≡ true
    → every is_token_char c ≡ true
    → a <> (":" <> b) ≡ c <> (":" <> d)
    → (a ≡ c) × (b ≡ d)
split_colon_text a c b d ha hc e = split_colon a c b d ha hc (
    sym (ap (λ (t : String). a <> t) (colon-append b))
    ∙ e
    ∙ ap (λ (t : String). c <> t) (colon-append d))

-- `(a1, ..., e1)` and `(a2, ..., e2)`, of which all but the last are tokens
join_five-injective :
    (a b c d e a' b' c' d' e' : String)
    → IsToken a × IsToken b × IsToken c × IsToken d
    → IsToken a' × IsToken b' × IsToken c' × IsToken d'
    → join_five a b c d e ≡ join_five a' b' c' d' e'
    → (a ≡ a') × (b ≡ b') × (c ≡ c') × (d ≡ d') × (e ≡ e')
unfolding join_five
join_five-injective a b c d e a' b' c' d' e' (ha, hb, hc, hd) (ha', hb', hc', hd') same =
    let (ea, r1) = split_colon_text a a' _ _ ha.chars ha'.chars same in
    let (eb, r2) = split_colon_text b b' _ _ hb.chars hb'.chars r1 in
    let (ec, r3) = split_colon_text c c' _ _ hc.chars hc'.chars r2 in
    let (ed, ee) = split_colon_text d d' _ _ hd.chars hd'.chars r3 in (ea, eb, ec, ed, ee)

-- A chain that returned, and whose first call validates a token.
IsToken-step :
    (name value : String) (rest : String → Result String) {s : String}
    → (validate_token name value >>= rest) ≡ ok s
    → IsToken value × (rest value ≡ ok s)
IsToken-step name value rest returned =
    let (t, valid, next) = >>=-eq-ok (validate_token name value) rest returned in
    let (same, token) = validate_token-eq-ok name value valid in (token, rw same next)

-- five texts, of which each is a token
abbrev pub Tokens : String → String → String → String → String → Type 0
Tokens a b c d e = (IsToken a × IsToken b × IsToken c × IsToken d) × IsToken e

abbrev pub SessionTokens : SessionScope → Type 0
SessionTokens q = Tokens q.backend q.project_id q.workspace_id q.lane q.role

abbrev pub LockTokens : LockScope → Type 0
LockTokens q = Tokens q.project_id q.workspace_id q.lane q.role q.operation_kind

pub session_tokens :
    (q : SessionScope) (s : String)
    → build_session_identity q ≡ ok s
    → SessionTokens q × (join_five q.backend q.project_id q.workspace_id q.lane q.role ≡ s)
unfolding build_session_identity
session_tokens q s h =
    let (ta, h1) = IsToken-step "backend" q.backend _ h in
    let (tb, h2) = IsToken-step "project_id" q.project_id _ h1 in
    let (tc, h3) = IsToken-step "workspace_id" q.workspace_id _ h2 in
    let (td, h4) = IsToken-step "lane" q.lane _ h3 in
    let (te, h5) = IsToken-step "role" q.role _ h4 in (((ta, tb, tc, td), te), ok-injective h5)

pub lock_tokens :
    (q : LockScope) (s : String)
    → build_lock_identity q ≡ ok s
    → LockTokens q × (join_five q.project_id q.workspace_id q.lane q.role q.operation_kind ≡ s)
unfolding build_lock_identity
lock_tokens q s h =
    let (ta, h1) = IsToken-step "project_id" q.project_id _ h in
    let (tb, h2) = IsToken-step "workspace_id" q.workspace_id _ h1 in
    let (tc, h3) = IsToken-step "lane" q.lane _ h2 in
    let (td, h4) = IsToken-step "role" q.role _ h3 in
    let (te, h5) = IsToken-step "operation_kind" q.operation_kind _ h4 in
    (((ta, tb, tc, td), te), ok-injective h5)

-- Five tokens have a lock identity, their join.
pub lock_exists :
    (q : LockScope)
    → LockTokens q
    → build_lock_identity q
      ≡ ok (join_five q.project_id q.workspace_id q.lane q.role q.operation_kind)
unfolding build_lock_identity
lock_exists q ((ta, tb, tc, td), te) =
    rw
      (
        IsToken-validate_token "project_id" q.project_id ta,
        IsToken-validate_token "workspace_id" q.workspace_id tb,
        IsToken-validate_token "lane" q.lane tc,
        IsToken-validate_token "role" q.role td,
        IsToken-validate_token "operation_kind" q.operation_kind te,
      )
      refl

-- Two calls of `build_session_identity` that return the same identity had the same arguments.
pub build_session_identity-injective :
    (q r : SessionScope) (s : String)
    → build_session_identity q ≡ ok s
    → build_session_identity r ≡ ok s
    → q ≡ r
build_session_identity-injective q r s hq hr =
    let ((front, _), eq) = session_tokens q s hq in
    let ((front', _), er) = session_tokens r s hr in
    let (ea, eb, ec, ed, ee) = join_five-injective _ _ _ _ _ _ _ _ _ _ front front' (eq ∙ sym er) in
    λ i. record { backend = ea i; project_id = eb i; workspace_id = ec i; lane = ed i; role = ee i }

-- Two calls of `build_lock_identity` that return the same identity had the same arguments.
pub build_lock_identity-injective :
    (q r : LockScope) (s : String)
    → build_lock_identity q ≡ ok s
    → build_lock_identity r ≡ ok s
    → q ≡ r
build_lock_identity-injective q r s hq hr =
    let ((front, _), eq) = lock_tokens q s hq in
    let ((front', _), er) = lock_tokens r s hr in
    let (ea, eb, ec, ed, ee) = join_five-injective _ _ _ _ _ _ _ _ _ _ front front' (eq ∙ sym er) in
    λ i. record {
      project_id = ea i;
      workspace_id = eb i;
      lane = ec i;
      role = ed i;
      operation_kind = ee i;
    }
