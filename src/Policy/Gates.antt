-- ===== src/Policy/Gates.antt =====
-- What `PolicyEngine.evaluate` (src/clawops/policy_engine.py) decides, and when it lets a side effect
-- through.
use strongclaw.Prelude.{
  String, ◌≡◌, refl, Bool, true, false, ◌||◌, Option, none, some, List, [], inl, inr, ◌==◌,
  if◌then◌else◌, is_some, Bool-cases, Option-cases, arith,
}
use strongclaw.Value.{Fields}
use strongclaw.Value.Matching.{to_text}
use strongclaw.Value.Access.{get}
use strongclaw.Runtime.{Runtime}
use strongclaw.Policy.Access.{mapping_or_empty, string_members, value_or}
use strongclaw.Policy.Decision.{build_review_decision}
use strongclaw.Policy.Rules.{Matched, is_decisive, rule_items, sweep}
use strongclaw.Policy.Rules.First.{decided-is_decisive}
use strongclaw.Policy.Evaluate.{
  default_decision, zone_denies, zone_omits, target_omitted, approval_id, run_rules, after_rules,
  after_matrix, evaluate,
}

-- `build_review_decision` changes no verdict.
decision-build :
    (rt : Runtime) (policy payload : Fields) (d : String) (reasons ids : List String)
    (id note : String)
    → (build_review_decision rt policy payload d reasons ids id note).decision ≡ d
unfolding build_review_decision
decision-build rt policy payload d reasons ids id note =
    elim (Bool-cases (d == "require_approval")) [ inl e ↦ rw e refl | inr e ↦ rw e refl ]

module _ (rt : Runtime) (policy payload : Fields) where
  -- The verdict of a rule that decided, or of the approval matrix and the default.
  pub late_verdict : Option Matched → String
  late_verdict (some m) = m.outcome
  late_verdict none =
      if is_some (approval_id rt policy payload)
      then "require_approval"
      else to_text rt (default_decision rt policy payload)

  -- One of the three tests before the rules denies.
  pub is_gated : Bool
  is_gated =
      zone_denies rt policy payload
      || zone_omits rt policy payload
      || target_omitted rt policy payload

  decision-after_matrix :
      (id : Option String) (reasons ids : List String)
      → (after_matrix rt policy payload id reasons ids).decision ≡ (
          if is_some id
          then "require_approval"
          else to_text rt (default_decision rt policy payload))
  unfolding after_matrix
  decision-after_matrix none reasons ids = decision-build rt policy payload _ _ _ _ _
  decision-after_matrix (some id) reasons ids = decision-build rt policy payload _ _ _ _ _

  decision-after_rules :
      (o : Option Matched)
      → (after_rules rt policy payload (run_rules rt policy payload) o).decision ≡ late_verdict o
  unfolding after_rules late_verdict
  decision-after_rules none = decision-after_matrix (approval_id rt policy payload) _ _
  decision-after_rules (some m) = elim (Bool-cases (m.outcome == "deny")) [
    | inl e ↦ rw e refl
    | inr e ↦ rw e (decision-build rt policy payload _ _ _ _ _)
  ]

  -- The verdict without its reasons.
  evaluate_verdict :
      (evaluate rt policy payload).decision
      ≡ (if is_gated then "deny" else late_verdict (run_rules rt policy payload).decided)
  unfolding evaluate is_gated
  evaluate_verdict = elim (Bool-cases (zone_denies rt policy payload)) [
    | inl e ↦ rw e refl
    | inr e ↦ elim (Bool-cases (zone_omits rt policy payload)) [
      | inl d ↦ rw (e, d) refl
      | inr d ↦ elim (Bool-cases (target_omitted rt policy payload)) [
        | inl c ↦ rw (e, d, c) refl
        | inr c ↦ rw (e, d, c) (decision-after_rules (run_rules rt policy payload).decided)
      ]
    ]
  ]

  -- What a side effect has passed.
  pub record Passed : Type 0 where
    pub zone_accepts : zone_denies rt policy payload ≡ false
    pub zone_lists : zone_omits rt policy payload ≡ false
    pub target_listed : target_omitted rt policy payload ≡ false
    pub no_rule_decides : (run_rules rt policy payload).decided ≡ none
    pub no_approval : approval_id rt policy payload ≡ none
    pub by_default : to_text rt (default_decision rt policy payload) ≡ "allow"

  not_gated :
      is_gated ≡ false
      → (zone_denies rt policy payload ≡ false)
        × (zone_omits rt policy payload ≡ false)
        × (target_omitted rt policy payload ≡ false)
  unfolding is_gated
  not_gated h = ground arith

  allow_is_late :
      (evaluate rt policy payload).decision ≡ "allow"
      → (is_gated ≡ false) × (late_verdict (run_rules rt policy payload).decided ≡ "allow")
  allow_is_late h = elim (Bool-cases is_gated) [
    | inl e ↦ absurd (cc (evaluate_verdict, e))
    | inr e ↦ (e, cc (evaluate_verdict, e))
  ]

  undecided :
      (o : Option Matched)
      → (run_rules rt policy payload).decided ≡ o
      → late_verdict o ≡ "allow"
      → (o ≡ none)
        × (approval_id rt policy payload ≡ none)
        × (to_text rt (default_decision rt policy payload) ≡ "allow")
  unfolding late_verdict
  undecided none e h = elim (Option-cases (approval_id rt policy payload)) [
    | inl a ↦ (refl, a, rw a at h)
    | inr (id, a) ↦ absurd (cc (rw a at h))
  ]
  undecided (some m) e h =
      let decisive : is_decisive m.outcome ≡ true =
        unfold run_rules in
        decided-is_decisive rt (default_decision rt policy payload) payload
          (rule_items (get "rules" policy)) [] [] m e in
      absurd (unfold is_decisive in cc (h, decisive))

  -- The engine allows a side effect only by its default, after every test has passed: the zone does
  -- not deny it and its allowlists name it, its target is listed, no matching rule denies it or asks
  -- for approval, and the approval matrix does not name it.
  pub allow-Passed : (evaluate rt policy payload).decision ≡ "allow" → Passed
  allow-Passed h =
      let (open_gates, late) = allow_is_late h in
      let (a, b, c) = not_gated open_gates in
      let (u, v, w) = undecided (run_rules rt policy payload).decided refl late in
      record {
        zone_accepts = a;
        zone_lists = b;
        target_listed = c;
        no_rule_decides = u;
        no_approval = v;
        by_default = w;
      }

  no_rules : get "rules" policy ≡ none → (run_rules rt policy payload).decided ≡ none
  unfolding run_rules rule_items sweep
  no_rules h = rw h

  no_matrix : get "approval" policy ≡ none → approval_id rt policy payload ≡ none
  unfolding approval_id mapping_or_empty string_members get
  no_matrix h = rw h

  no_defaults :
      get "defaults" policy ≡ none → to_text rt (default_decision rt policy payload) ≡ "deny"
  unfolding default_decision mapping_or_empty value_or to_text get
  no_defaults h = rw h

  -- A policy with no rules, no approval matrix and no defaults denies every payload, whatever its
  -- zones and allowlists.
  pub fails_closed :
      get "rules" policy ≡ none
      → get "approval" policy ≡ none
      → get "defaults" policy ≡ none
      → (evaluate rt policy payload).decision ≡ "deny"
  unfolding late_verdict
  fails_closed a b c = elim (Bool-cases is_gated) [
    | inl e ↦ rw (evaluate_verdict, e) refl
    | inr e ↦ rw (evaluate_verdict, e, no_rules a, no_matrix b) (no_defaults c)
  ]
