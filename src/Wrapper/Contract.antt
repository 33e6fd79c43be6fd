-- ===== src/Wrapper/Contract.antt =====
-- Execution contracts of src/clawops/wrappers/base.py, and the decision that a row stores.
pub mod RoundTrip
use strongclaw.Prelude.{
  ℕ, String, Bool, true, false, ◌&&◌, Option, none, some, List, [], ◌∷◌, ◌==◌, eqb, if◌then◌else◌,
}
use strongclaw.Prelude.Text.{is_nonempty}
use strongclaw.Value.{Value, str, obj, arr, nat, bool, Items, nil, cons, Fields, end, field}
use strongclaw.Value.Access.{get}
use strongclaw.Value.Matching.{bool_number}
use strongclaw.Runtime.{Runtime}
use strongclaw.Result.{Result, ok, err, not_text, ◌>>=◌}
use strongclaw.Journal.Rows.{Operation}
use strongclaw.Policy.Decision.{Decision, plain, decision_to_dict}

-- EXECUTION_CONTRACT_VERSION
abbrev pub contract_version : ℕ
contract_version = 1

pub record ExecutionContract : Type 0 where
  pub version : ℕ
  pub scope : String
  pub kind : String
  pub trust_zone : String
  pub normalized_target : String
  pub inputs_hash : String
  pub policy_decision : String

-- `ExecutionContract.to_dict`
unfoldable pub contract_to_dict : ExecutionContract → Fields
contract_to_dict c = field "version" (nat c.version) (
    field "scope" (str c.scope) (
      field "kind" (str c.kind) (
        field "trust_zone" (str c.trust_zone) (
          field "normalized_target" (str c.normalized_target) (
            field "inputs_hash" (str c.inputs_hash)
              (field "policy_decision" (str c.policy_decision) end))))))

-- s == text, where a NULL column equals no text
unfoldable pub text_is : String → Option String → Bool
text_is s none = false
text_is s (some t) = s == t

-- `ExecutionContract.matches`
unfoldable pub matches : ExecutionContract → Operation → Bool
unfolding text_is
matches c op =
    eqb c.version contract_version
    && c.scope == op.scope
    && c.kind == op.kind
    && c.trust_zone == op.trust_zone
    && c.normalized_target == op.normalized_target
    && c.inputs_hash == op.inputs_hash
    && text_is c.policy_decision op.policy_decision

-- `_build_execution_contract`
unfoldable pub build_contract : Operation → Decision → ExecutionContract
build_contract op d = record {
  version = contract_version;
  scope = op.scope;
  kind = op.kind;
  trust_zone = op.trust_zone;
  normalized_target = op.normalized_target;
  inputs_hash = op.inputs_hash;
  policy_decision = d.decision;
}

-- A value that `isinstance(value, str)` lets through; a missing key is `none`.
unfoldable pub as_text : Option Value → Option String
as_text (some (str s)) = some s
as_text v = none

-- A value that `isinstance(value, int)` lets through, and Python's True is one. A negative number is
-- left out here: the next test refuses it.
unfoldable pub as_version : Option Value → Option ℕ
unfolding bool_number
as_version (some (nat n)) = some n
as_version (some (bool b)) = some (bool_number b)
as_version v = none

-- op.execution_contract_version is not None and op.execution_contract_version != version
unfoldable pub column_agrees : Option ℕ → ℕ → Bool
column_agrees none version = true
column_agrees (some v) version = eqb v version

unfoldable pub when : Bool → Option ExecutionContract → Option ExecutionContract
when false c = none
when true c = c

module _ (fs : Fields) where
  text_field : String → (String → Option ExecutionContract) → Option ExecutionContract
  text_field key rest = elim (as_text (get key fs)) [ none ↦ none | some s ↦ rest s ]

  -- the tests on the loaded dictionary, in the order of the code
  unfoldable pub contract_from_fields : Option ℕ → Option ExecutionContract
  unfolding text_field when column_agrees as_text as_version
  contract_from_fields column = elim (as_version (get "version" fs)) [
    | none ↦ none
    | some version ↦ text_field "scope" λ scope. text_field "kind" λ kind.
        text_field "trust_zone" λ trust_zone. text_field "normalized_target" λ normalized_target.
          text_field "inputs_hash" λ inputs_hash. text_field "policy_decision" λ policy_decision.
            when (eqb version contract_version && column_agrees column version) (
              some (record {
                version = version;
                scope = scope;
                kind = kind;
                trust_zone = trust_zone;
                normalized_target = normalized_target;
                inputs_hash = inputs_hash;
                policy_decision = policy_decision;
              }))
  ]

-- [as_string(item) for item in value]
unfoldable pub string_list : Items → Result (List String)
string_list nil = ok []
string_list (cons (str s) xs) = do rest ← string_list xs; ok (s ∷ rest)
string_list (cons x xs) = err not_text

-- Decision(decision=op.policy_decision), if the column is set
unfoldable pub bare_decision : Option String → Option Decision
bare_decision none = none
bare_decision (some d) = some (plain d [] [])

-- the decision of a loaded dictionary, if its members have the right types
unfoldable pub decision_from_fields :
    Option Value → Option Value → Option Value → Fields → Option Decision → Result (Option Decision)
unfolding string_list as_text
decision_from_fields (some (str d)) (some (arr reasons)) (some (arr matched)) fs bare = do
  reason_texts ← string_list reasons
  matched_texts ← string_list matched
  ok (
      some (record {
        decision = d;
        reasons = reason_texts;
        matched_rules = matched_texts;
        review_mode = as_text (get "review_mode" fs);
        review_target = as_text (get "review_target" fs);
        review_reason = as_text (get "review_reason" fs);
        review_policy_id = as_text (get "review_policy_id" fs);
        delegate_to = as_text (get "delegate_to" fs);
      }))
decision_from_fields d reasons matched fs bare = ok bare

module _ (rt : Runtime) where
  -- `_decision_to_json`
  unfoldable pub decision_to_json : Decision → String
  decision_to_json d = rt.dumps (obj (decision_to_dict d))

  -- `_execution_contract_to_json`
  unfoldable pub contract_to_json : ExecutionContract → String
  contract_to_json c = rt.dumps (obj (contract_to_dict c))

  unfoldable pub loaded_contract : Option Value → Option ℕ → Option ExecutionContract
  unfolding contract_from_fields
  loaded_contract (some (obj fs)) column = contract_from_fields fs column
  loaded_contract v column = none

  unfoldable pub contract_at : Option String → Option ℕ → Option ExecutionContract
  unfolding loaded_contract
  contract_at none column = none
  contract_at (some raw) column = loaded_contract (rt.loads raw) column

  -- `execution_contract_from_operation`
  unfoldable pub contract_from_operation : Operation → Option ExecutionContract
  unfolding contract_at
  contract_from_operation op = contract_at op.execution_contract_json op.execution_contract_version

  unfoldable pub loaded_decision : Option Value → Option Decision → Result (Option Decision)
  unfolding decision_from_fields
  loaded_decision (some (obj fs)) bare =
      decision_from_fields (get "decision" fs) (get "reasons" fs) (get "matched_rules" fs) fs bare
  loaded_decision v bare = ok bare

  unfoldable pub decision_at : Option String → Option Decision → Result (Option Decision)
  unfolding loaded_decision
  decision_at none bare = ok bare
  decision_at (some raw) bare =
      if is_nonempty raw then loaded_decision (rt.loads raw) bare else ok bare

  -- `decision_from_operation`
  unfoldable pub decision_from_operation : Operation → Result (Option Decision)
  unfolding decision_at bare_decision
  decision_from_operation op =
      decision_at op.policy_decision_json (bare_decision op.policy_decision)
