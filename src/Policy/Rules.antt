-- ===== src/Policy/Rules.antt =====
-- The loop over `rules` in `PolicyEngine.evaluate` (src/clawops/policy_engine.py).
pub mod First
use strongclaw.Prelude.{
  ℕ, suc, ◌+◌, String, ◌<>◌, Bool, true, false, Option, none, some, List, [], ◌∷◌, ◌++◌, length,
  ◌==◌, if◌then◌else◌,
}
use strongclaw.Prelude.Text.{show_nat}
use strongclaw.Value.{Value, str, arr, obj, Items, nil, cons, Fields}
use strongclaw.Value.Access.{get}
use strongclaw.Value.Matching.{to_text, match_mapping}
use strongclaw.Runtime.{Runtime}
use strongclaw.Policy.Access.{mapping_or_none, value_or}

-- A rule that matched: its id, its outcome and its note.
pub record Matched : Type 0 where
  pub rule_id : String
  pub outcome : String
  pub note : String

-- What the loop ends with: the reasons and rules so far, and the rule that decided, if one did.
pub record Sweep : Type 0 where
  pub reasons : List String
  pub matched_rules : List String
  pub decided : Option Matched

-- Only these outcomes end the loop.
unfoldable pub is_decisive : String → Bool
is_decisive outcome = if outcome == "deny" then true else outcome == "require_approval"

module _ (rt : Runtime) (default_decision : Value) (payload : Fields) where
  unfoldable pub describe : ℕ → Fields → Matched
  describe count rule =
      let rule_id = to_text rt (value_or (get "id" rule) (str ("rule-" <> show_nat (count + 1)))) in
      record {
        rule_id = rule_id;
        outcome = to_text rt (value_or (get "decision" rule) default_decision);
        note = to_text rt (value_or (get "reason" rule) (str rule_id));
      }

  -- the `when` of a rule against the payload
  unfoldable pub applies : Option Fields → Bool
  applies none = false
  applies (some condition) = match_mapping rt condition payload

  -- One element of `rules`, with the number of rules that matched before it.
  unfoldable pub try_rule : ℕ → Option Fields → Option Matched
  unfolding describe applies
  try_rule count none = none
  try_rule count (some rule) =
      if applies (mapping_or_none (get "when" rule)) then some (describe count rule) else none

  unfoldable pub sweep : Items → List String → List String → Sweep
  unfolding try_rule is_decisive
  sweep nil reasons matched_rules = record {
    reasons = reasons;
    matched_rules = matched_rules;
    decided = none;
  }
  sweep (cons raw_rule rules) reasons matched_rules =
      elim (try_rule (length matched_rules) (mapping_or_none (some raw_rule))) [
        | none ↦ sweep rules reasons matched_rules
        | some m ↦
            (let reasons' = reasons ++ m.note ∷ [] in
              let matched_rules' = matched_rules ++ m.rule_id ∷ [] in
              let rest = sweep rules reasons' matched_rules' in
              if is_decisive m.outcome
              then record { reasons = reasons'; matched_rules = matched_rules'; decided = some m }
              else rest)
      ]

-- `rules` if it is a sequence
unfoldable pub rule_items : Option Value → Items
rule_items (some (arr rules)) = rules
rule_items v = nil
