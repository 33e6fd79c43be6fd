-- ===== src/Tests/PolicyTests.antt =====
-- The policy engine's theorems (src/clawops/policy_engine.py) at concrete policies and payloads.
use strongclaw.Prelude.{◌≡◌, refl, some, []}
use strongclaw.Prelude.Text.{show_nat, strip}
use strongclaw.Value.{str, arr, obj, nil, cons, Fields, end, field}
use strongclaw.Value.Access.{get, update}
use strongclaw.Value.Matching.{match_mapping, to_text, value_eq}
use strongclaw.Policy.Access.{mapping_or_none, mapping_or_empty, string_members, value_or}
use strongclaw.Policy.Decision.{
  text_at, review_decision, build_review_decision, resolve_review_config,
}
use strongclaw.Policy.Rules.{sweep, rule_items}
use strongclaw.Policy.Rules.First.{sweep-eq-cut, cut, first_decisive, all_matched, notes, ids}
use strongclaw.Policy.Evaluate.{
  evaluate, run_rules, zone, zone_denies, zone_omits, target_omitted, approval_id, default_decision,
}
use strongclaw.Policy.Gates.{allow-Passed, Passed}
use strongclaw.Policy.Metadata.{evaluate-ReviewShape, ReviewShape}
use strongclaw.Tests.Fixtures.{toy}

-- Allow by default; ask for approval of deletions; deny the zone "reader" every "admin" action.
abbrev policy : Fields
policy = field "defaults" (obj (field "decision" (str "allow") end)) (
    field "zones"
      (obj (field "reader" (obj (field "deny_actions" (arr (cons (str "admin") nil)) end)) end))
      (field "rules"
        (arr (
          cons
            (obj (
              field "when" (obj (field "action" (str "delete") end))
                (field "decision" (str "require_approval") end)))
            nil))
        end))

abbrev read_it : Fields
read_it = field "trust_zone" (str "reader") (field "action" (str "read") end)

abbrev delete_it : Fields
delete_it = field "trust_zone" (str "reader") (field "action" (str "delete") end)

reads_allowed : (evaluate toy policy read_it).decision ≡ "allow"
unfolding evaluate zone_denies zone_omits target_omitted zone run_rules approval_id default_decision
    get mapping_or_empty string_members text_at to_text value_or rule_items sweep match_mapping
    mapping_or_none value_eq build_review_decision
reads_allowed = refl

deletes_reviewed :
    let d = evaluate toy policy delete_it in
    (d.decision ≡ "require_approval") × (d.review_mode ≡ some "manual")
unfolding evaluate zone_denies zone_omits target_omitted zone run_rules approval_id default_decision
    get mapping_or_empty string_members text_at to_text value_or rule_items sweep match_mapping
    mapping_or_none value_eq build_review_decision review_decision resolve_review_config strip
    update show_nat
deletes_reviewed = (refl, refl)

allow-Passed_example : Passed toy policy read_it
allow-Passed_example = allow-Passed toy policy read_it reads_allowed

evaluate-ReviewShape_example : ReviewShape (evaluate toy policy delete_it)
evaluate-ReviewShape_example = evaluate-ReviewShape toy policy delete_it

sweep-eq-cut_example :
    sweep toy (str "allow") delete_it (rule_items (get "rules" policy)) [] [] ≡ record {
      reasons =
          notes (cut (all_matched toy (str "allow") delete_it 0 (rule_items (get "rules" policy))));
      matched_rules =
          ids (cut (all_matched toy (str "allow") delete_it 0 (rule_items (get "rules" policy))));
      decided =
          first_decisive
            (all_matched toy (str "allow") delete_it 0 (rule_items (get "rules" policy)));
    }
sweep-eq-cut_example =
    sweep-eq-cut toy (str "allow") delete_it (rule_items (get "rules" policy)) [] []
