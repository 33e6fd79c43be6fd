-- ===== src/Workflow/Handled.antt =====
-- The steps of a workflow that `_validate_workflow` of src/clawops/workflow_runner.py lets through.
use strongclaw.Prelude.{
  ℕ, ◌+◌, String, true, ◌==◌, ◌≡◌, refl, Option, none, some, List, [], ◌∷◌, eq_iff, contains, All,
  Bool-cases, inl, inr, subst, sym, ap, ◌∙◌, ◌<>◌, ◌||◌,
}
use strongclaw.Value.{Value, str, obj, arr, nat, neg, bool, null, Fields}
use strongclaw.Value.Access.{get}
use strongclaw.Policy.Access.{value_or}
use strongclaw.Result.{
  ok, wrong_value, wrong_type, >>=-eq-ok, require-eq-ok, ok-injective, ◌>>=◌, ◌>>◌,
}
use strongclaw.Typed.{get_value, as_mapping, as_string, item_path}
use strongclaw.Orchestration.Inputs.{nonempty_text}
use strongclaw.Workflow.{
  workflow_kinds, is_text, is_null, check_kind, validate_step, validate_steps, workflow_steps,
  validate_workflow,
}
use strongclaw.Workflow.Run.{handler_kinds}

-- A step has a kind, a text, for which `run` has a handler.
abbrev pub HasHandler : Fields → Type 0
HasHandler step =
    (kind : String) × (get "kind" step ≡ some (str kind)) × (contains handler_kinds kind ≡ true)

-- The two tables agree.
contains-subset :
    (names others : List String) (s : String)
    → All (λ name. contains others name ≡ true) names
    → contains names s ≡ true
    → contains others s ≡ true
contains-subset [] others s all h = absurd (cc)
contains-subset (n ∷ names) others s (hn, all) h = elim (Bool-cases (s == n)) [
  | inl e ↦ rw ((eq_iff s n).0 e) hn
  | inr e ↦ contains-subset names others s all (rw e at h)
]

as_string-eq-ok :
    (o : Option Value) (path : String) {s : String}
    → as_string (value_or o null) path ≡ ok s
    → o ≡ some (str s)
unfolding as_string value_or
as_string-eq-ok none path h = absurd (cc)
as_string-eq-ok (some (str s)) path h = cc
as_string-eq-ok (some (obj fs)) path h = absurd (cc)
as_string-eq-ok (some (arr xs)) path h = absurd (cc)
as_string-eq-ok (some (nat n)) path h = absurd (cc)
as_string-eq-ok (some (neg n)) path h = absurd (cc)
as_string-eq-ok (some (bool b)) path h = absurd (cc)
as_string-eq-ok (some null) path h = absurd (cc)

kinds_handled : All (λ name. contains handler_kinds name ≡ true) workflow_kinds
kinds_handled = (
  refl,
  (
    refl,
    (
      refl,
      (refl, (refl, (refl, (refl, (refl, (refl, (refl, (refl, (refl, (refl, (refl, tt))))))))))),
    ),
  ),
)

validate_step-HasHandler :
    (step : Fields) (prefix : String) → validate_step step prefix ≡ ok tt → HasHandler step
unfolding validate_step get_value
validate_step-HasHandler step prefix h =
    let (name, _, h1) = >>=-eq-ok (nonempty_text (get_value "name" step) (prefix <> ".name")) _ h in
    let (kind, known, h2) =
      >>=-eq-ok (as_string (get_value "kind" step) (prefix <> ".kind")) _ h1 in
    let (allowed, _) =
      require-eq-ok (contains workflow_kinds kind) (wrong_value (prefix <> ".kind"))
        (check_kind step prefix kind) h2 in
    (
      kind,
      as_string-eq-ok (get "kind" step) _ known,
      contains-subset workflow_kinds handler_kinds kind kinds_handled allowed,
    )

validate_steps-All :
    (index : ℕ) (steps : List Fields) → validate_steps index steps ≡ ok tt → All HasHandler steps
unfolding validate_steps
validate_steps-All index [] h = tt
validate_steps-All index (step ∷ steps) h =
    let (done, first, rest) =
      >>=-eq-ok (validate_step step (item_path "workflow.steps" index)) _ h in
    (validate_step-HasHandler step _ first, validate_steps-All (index + 1) steps rest)

-- Each step of a workflow that `_validate_workflow` returns has a kind for which `run` has a handler.
pub validate_workflow-HasHandler :
    (v : Value) (workflow : Fields) (steps : List Fields)
    → validate_workflow v ≡ ok workflow
    → workflow_steps workflow ≡ ok steps
    → All HasHandler steps
unfolding validate_workflow
validate_workflow-HasHandler v workflow steps h listed =
    let (fs, _, h1) = >>=-eq-ok (as_mapping v "workflow") _ h in
    let (_, h2) =
      require-eq-ok (is_null (get_value "base_dir" fs) || is_text (get_value "base_dir" fs))
        (wrong_type "workflow.base_dir")
        (do steps' ← workflow_steps fs; validate_steps 1 steps'; ok fs) h1 in
    let (steps', listed', h3) = >>=-eq-ok (workflow_steps fs) _ h2 in
    let (done, valid, same) = >>=-eq-ok (validate_steps 1 steps') _ h3 in
    let back = ap workflow_steps (ok-injective same) ∙ listed in
    subst (λ l. All HasHandler l) (ok-injective (sym listed' ∙ back))
      (validate_steps-All 1 steps' valid)
