-- ===== src/Policy/Decision.antt =====
-- `Decision`, `_resolve_review_config` and `_build_review_decision` of
-- src/clawops/policy_engine.py.
use strongclaw.Prelude.{String, Option, none, some, List, [], ◌∷◌, ◌==◌, if◌then◌else◌}
use strongclaw.Prelude.Text.{strip, is_nonempty}
use strongclaw.Value.{Value, str, arr, Items, nil, cons, Fields, end, field}
use strongclaw.Value.Access.{get, update}
use strongclaw.Value.Matching.{to_text}
use strongclaw.Runtime.{Runtime}
use strongclaw.Policy.Access.{mapping_or_none, value_or}

pub record Decision : Type 0 where
  pub decision : String
  pub reasons : List String
  pub matched_rules : List String
  pub review_mode : Option String
  pub review_target : Option String
  pub review_reason : Option String
  pub review_policy_id : Option String
  pub delegate_to : Option String

-- Decision(decision, reasons, matched_rules)
abbrev pub plain : String → List String → List String → Decision
plain decision reasons matched_rules = record {
  decision = decision;
  reasons = reasons;
  matched_rules = matched_rules;
  review_mode = none;
  review_target = none;
  review_reason = none;
  review_policy_id = none;
  delegate_to = none;
}

-- if value is not None: payload[key] = value
unfoldable pub optional_field : String → Option String → Fields → Fields
optional_field key none fs = fs
optional_field key (some s) fs = field key (str s) fs

-- `Decision.review_payload`
unfoldable pub review_payload : Decision → Fields
unfolding optional_field
review_payload d = optional_field "review_mode" d.review_mode (
    optional_field "review_target" d.review_target (
      optional_field "review_reason" d.review_reason (
        optional_field "review_policy_id" d.review_policy_id
          (optional_field "delegate_to" d.delegate_to end))))

unfoldable pub text_items : List String → Items
text_items [] = nil
text_items (s ∷ ss) = cons (str s) (text_items ss)

-- `Decision.to_dict`
unfoldable pub decision_to_dict : Decision → Fields
unfolding text_items
decision_to_dict d = field "decision" (str d.decision) (
    field "reasons" (arr (text_items d.reasons))
      (field "matched_rules" (arr (text_items d.matched_rules)) (review_payload d)))

-- merged.update(config), if there is one
unfoldable pub overlay : Option Fields → Fields → Fields
overlay none merged = merged
overlay (some config) merged = update merged config

-- the entry for one action or category of an optional block
unfoldable pub block_entry : Option Fields → String → Option Fields
block_entry none key = none
block_entry (some block) key = mapping_or_none (get key block)

-- str(value).strip() if it is a string that is not blank, else the default
unfoldable pub text_or : Option Value → Option String → Option String
text_or (some (str s)) d = if is_nonempty (strip s) then some (strip s) else d
text_or v d = d

unfoldable pub nonempty_or : String → String → String
nonempty_or s d = if is_nonempty s then s else d

-- config.get(key, fallback)
unfoldable pub first_value : Option Value → Option Value → Option Value
first_value none w = w
first_value (some v) w = some v

module _ (rt : Runtime) where
  -- str(payload.get(key, default))
  unfoldable pub text_at : String → String → Fields → String
  text_at key default payload = to_text rt (value_or (get key payload) (str default))

  unfoldable pub resolve_in : Option Fields → Fields → Fields
  unfolding overlay block_entry text_at
  resolve_in none payload = end
  resolve_in (some block) payload =
      overlay (block_entry (mapping_or_none (get "actions" block)) (text_at "action" "" payload)) (
        overlay
          (block_entry (mapping_or_none (get "categories" block)) (text_at "category" "" payload))
          (overlay (mapping_or_none (get "defaults" block)) end))

  -- `_resolve_review_config`
  unfoldable pub resolve_review_config : Fields → Fields → Fields
  unfolding resolve_in
  resolve_review_config policy payload = resolve_in (mapping_or_none (get "review" policy)) payload

  -- the review columns, from the resolved configuration
  unfoldable pub review_decision :
      Fields → String → List String → List String → String → String → Decision
  unfolding text_or nonempty_or first_value
  review_decision config decision reasons matched_rules review_policy_id fallback_reason =
      let delegate_to = text_or (get "delegate_to" config) none in
      record {
        decision = decision;
        reasons = reasons;
        matched_rules = matched_rules;
        review_mode = some (
            nonempty_or (strip (to_text rt (value_or (get "mode" config) (str "manual"))))
              "manual");
        review_target =
            text_or (first_value (get "review_target" config) (get "target" config)) delegate_to;
        review_reason = text_or (get "reason" config) (some fallback_reason);
        review_policy_id = some review_policy_id;
        delegate_to = delegate_to;
      }

  -- `_build_review_decision`
  unfoldable pub build_review_decision :
      Fields → Fields → String → List String → List String → String → String → Decision
  unfolding review_decision
  build_review_decision policy payload decision reasons matched_rules review_policy_id
        fallback_reason =
      if decision == "require_approval"
      then review_decision (resolve_review_config policy payload) decision reasons matched_rules
          review_policy_id fallback_reason
      else plain decision reasons matched_rules
