-- ===== src/Policy/Metadata.antt =====
-- The review metadata of a decision (src/clawops/policy_engine.py), and the empty policy.
use strongclaw.Prelude.{
  String, ◌≡◌, refl, ap, eq_iff, true, false, Option, none, some, List, ◌==◌, is_some, Bool-cases,
  inl, inr,
}
use strongclaw.Prelude.Text.{strip, is_nonempty}
use strongclaw.Value.{Value, str, Fields}
use strongclaw.Value.Access.{get}
use strongclaw.Runtime.{Runtime}
use strongclaw.Policy.Decision.{
  Decision, plain, text_or, review_decision, build_review_decision, resolve_review_config,
}
use strongclaw.Policy.Rules.{Matched}
use strongclaw.Policy.Evaluate.{
  zone_denies, zone_omits, target_omitted, approval_id, run_rules, after_rules, after_matrix,
  evaluate,
}

-- The review columns are filled in exactly if the decision asks for approval.
pub record ReviewShape (d : Decision) : Type 0 where
  pub has_mode : is_some d.review_mode ≡ (d.decision == "require_approval")
  pub has_reason : is_some d.review_reason ≡ (d.decision == "require_approval")
  pub has_policy_id : is_some d.review_policy_id ≡ (d.decision == "require_approval")

text_or-some : (v : Option Value) (s : String) → is_some (text_or v (some s)) ≡ true
unfolding text_or
text_or-some (some (str t)) s = elim (Bool-cases (is_nonempty (strip t))) [
  | inl e ↦ rw e refl
  | inr e ↦ rw e refl
]
text_or-some _ s = refl

build-ReviewShape :
    (rt : Runtime) (policy payload : Fields) (d : String) (reasons ids : List String)
    (id note : String)
    → ReviewShape (build_review_decision rt policy payload d reasons ids id note)
unfolding build_review_decision review_decision
build-ReviewShape rt policy payload d reasons ids id note =
    elim (Bool-cases (d == "require_approval")) [
      | inl e ↦ rw e (record {
        has_mode = rw e refl;
        has_reason =
            rw e (text_or-some (get "reason" (resolve_review_config rt policy payload)) note);
        has_policy_id = rw e refl;
      })
      | inr e ↦
          rw e (record { has_mode = rw e refl; has_reason = rw e refl; has_policy_id = rw e refl })
    ]

plain-ReviewShape :
    (d : String) (reasons ids : List String)
    → (d == "require_approval") ≡ false
    → ReviewShape (plain d reasons ids)
plain-ReviewShape d reasons ids e = record {
  has_mode = rw e refl;
  has_reason = rw e refl;
  has_policy_id = rw e refl;
}

module _ (rt : Runtime) (policy payload : Fields) where
  after_matrix-ReviewShape :
      (id : Option String) (reasons ids : List String)
      → ReviewShape (after_matrix rt policy payload id reasons ids)
  unfolding after_matrix
  after_matrix-ReviewShape none reasons ids = build-ReviewShape rt policy payload _ _ _ _ _
  after_matrix-ReviewShape (some id) reasons ids = build-ReviewShape rt policy payload _ _ _ _ _

  after_rules-ReviewShape :
      (o : Option Matched)
      → ReviewShape (after_rules rt policy payload (run_rules rt policy payload) o)
  unfolding after_rules
  after_rules-ReviewShape none = after_matrix-ReviewShape (approval_id rt policy payload) _ _
  after_rules-ReviewShape (some m) = elim (Bool-cases (m.outcome == "deny")) [
    | inl e ↦ rw e (
        plain-ReviewShape m.outcome _ _
          (ap (λ (t : String). t == "require_approval") ((eq_iff m.outcome "deny").0 e)))
    | inr e ↦ rw e (build-ReviewShape rt policy payload _ _ _ _ _)
  ]

  -- Every decision has a review mode, a review reason and a policy id exactly if it asks for
  -- approval.
  pub evaluate-ReviewShape : ReviewShape (evaluate rt policy payload)
  unfolding evaluate
  evaluate-ReviewShape = elim (Bool-cases (zone_denies rt policy payload)) [
    | inl e ↦ rw e (plain-ReviewShape "deny" _ _ refl)
    | inr e ↦ elim (Bool-cases (zone_omits rt policy payload)) [
      | inl d ↦ rw (e, d) (plain-ReviewShape "deny" _ _ refl)
      | inr d ↦ elim (Bool-cases (target_omitted rt policy payload)) [
        | inl c ↦ rw (e, d, c) (plain-ReviewShape "deny" _ _ refl)
        | inr c ↦ rw (e, d, c) (after_rules-ReviewShape (run_rules rt policy payload).decided)
      ]
    ]
  ]
