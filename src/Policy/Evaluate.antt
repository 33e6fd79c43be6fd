-- ===== src/Policy/Evaluate.antt =====
-- `PolicyEngine.evaluate` of src/clawops/policy_engine.py.
use strongclaw.Prelude.{
  String, ◌<>◌, Bool, ◌&&◌, ◌||◌, not, Option, none, some, List, [], ◌∷◌, ◌++◌, ◌==◌, if◌then◌else◌,
  contains,
}
use strongclaw.Prelude.Text.{is_nonempty}
use strongclaw.Value.{Value, str, Fields}
use strongclaw.Value.Access.{get}
use strongclaw.Value.Matching.{to_text}
use strongclaw.Runtime.{Runtime}
use strongclaw.Policy.Access.{mapping_or_empty, string_members, has_members, value_or}
use strongclaw.Policy.Decision.{Decision, plain, text_at, build_review_decision}
use strongclaw.Policy.Rules.{Matched, Sweep, sweep, rule_items}

unfoldable pub or_default_reasons : List String → List String
or_default_reasons [] = "default" ∷ []
or_default_reasons (r ∷ rs) = r ∷ rs

-- reasons[-1] if reasons else "default"
unfoldable pub last_reason : List String → String
last_reason [] = "default"
last_reason (r ∷ []) = r
last_reason (r ∷ s ∷ rs) = last_reason (s ∷ rs)

module _ (rt : Runtime) (policy payload : Fields) where
  unfoldable pub default_decision : Value
  default_decision =
      value_or (get "decision" (mapping_or_empty (get "defaults" policy))) (str "deny")

  abbrev pub zone_name : String
  zone_name = text_at rt "trust_zone" "unknown" payload

  unfoldable pub zone : Fields
  zone = mapping_or_empty (get zone_name (mapping_or_empty (get "zones" policy)))

  abbrev pub action : String
  action = text_at rt "action" "" payload

  abbrev pub category : String
  category = text_at rt "category" "" payload

  -- a named set of the zone
  abbrev pub zone_set : String → List String
  zone_set key = string_members (get key zone)

  -- the first test of the zone
  unfoldable pub zone_denies : Bool
  zone_denies =
      contains (zone_set "deny_actions") action || contains (zone_set "deny_categories") category

  -- the allowlists of the zone, if it has any, name neither the action nor the category
  unfoldable pub zone_omits : Bool
  zone_omits =
      (has_members (zone_set "allow_actions") || has_members (zone_set "allow_categories"))
      && not (
          contains (zone_set "allow_actions") action
          || contains (zone_set "allow_categories") category)

  abbrev pub target_kind : String
  target_kind = text_at rt "target_kind" "" payload

  abbrev pub allowed_targets : List String
  allowed_targets = string_members (get target_kind (mapping_or_empty (get "allowlists" policy)))

  -- the payload names a kind of target whose allowlist does not have its target
  unfoldable pub target_omitted : Bool
  target_omitted =
      is_nonempty target_kind
      && has_members allowed_targets
      && not (contains allowed_targets (text_at rt "target" "" payload))

  abbrev pub approval_set : String → List String
  approval_set key = string_members (get key (mapping_or_empty (get "approval" policy)))

  -- the policy id that the approval matrix gives, if it asks for approval
  unfoldable pub approval_id : Option String
  approval_id =
      if contains (approval_set "require_for_actions") action
      then some ("approval.actions." <> action)
      else if contains (approval_set "require_for_categories") category
      then some ("approval.categories." <> category)
      else none

  unfoldable pub after_matrix : Option String → List String → List String → Decision
  unfolding or_default_reasons last_reason
  after_matrix (some id) reasons matched_rules =
      build_review_decision rt policy payload "require_approval"
        (reasons ++ "approval required by approval matrix" ∷ []) matched_rules id
        "approval required by approval matrix"
  after_matrix none reasons matched_rules =
      build_review_decision rt policy payload (to_text rt default_decision)
        (or_default_reasons reasons) matched_rules "defaults.decision" (last_reason reasons)

  -- after the loop: a rule that denied, one that asks for approval, or none that decided
  unfoldable pub after_rules : Sweep → Option Matched → Decision
  unfolding after_matrix
  after_rules s none = after_matrix approval_id s.reasons s.matched_rules
  after_rules s (some m) =
      if m.outcome == "deny"
      then plain m.outcome s.reasons s.matched_rules
      else build_review_decision rt policy payload m.outcome s.reasons s.matched_rules m.rule_id
          m.note

  unfoldable pub run_rules : Sweep
  run_rules = sweep rt default_decision payload (rule_items (get "rules" policy)) [] []

  unfoldable pub evaluate : Decision
  unfolding after_rules
  evaluate =
      if zone_denies
      then plain "deny" (("zone:" <> zone_name <> ":action/category denied") ∷ []) []
      else if zone_omits
      then plain "deny" (("zone:" <> zone_name <> ":not in allowlist") ∷ []) []
      else if target_omitted
      then plain "deny" (("target:" <> target_kind <> ":not allowlisted") ∷ []) []
      else after_rules run_rules run_rules.decided
