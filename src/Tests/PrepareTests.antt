-- ===== src/Tests/PrepareTests.antt =====
-- The theorems on `prepare_operation` (src/clawops/wrappers/base.py) for a request on an empty
-- journal, under policies that decide by their default.
use strongclaw.Prelude.{subst, String, ◌≡◌, refl, sym, ap, ◌==◌, false, some, [], ◌∷◌}
use strongclaw.Prelude.Text.{take_text, show_nat}
use strongclaw.Value.{str, obj, Fields, end, field}
use strongclaw.Value.Access.{get}
use strongclaw.Runtime.{Runtime}
use strongclaw.Result.{ok}
use strongclaw.Journal.Rows.{Operation, Journal, empty_journal}
use strongclaw.Journal.Begin.{begin, idempotency_key, op_id_at, new_row}
use strongclaw.Journal.Tables.{find_op, find_key, insert_op, read_back}
use strongclaw.Policy.Decision.{Decision, plain, text_at, build_review_decision}
use strongclaw.Policy.Evaluate.{
  evaluate, zone_denies, zone, zone_omits, target_omitted, run_rules, approval_id, default_decision,
}
use strongclaw.Policy.Access.{string_members, mapping_or_empty, value_or}
use strongclaw.Policy.Rules.{sweep, rule_items}
use strongclaw.Value.Matching.{to_text}
use strongclaw.Wrapper.Contract.{build_contract, contract_to_dict}
use strongclaw.Wrapper.Dispatch.{Desk}
use strongclaw.Wrapper.Prepare.{prepare_operation}
use strongclaw.Wrapper.Prepare.Verdict.{
  Cleared, Refused, Asked, prepare_allows, prepare_denies, prepare_asks,
}
use strongclaw.Value.Sorted.{sort_keys}
use strongclaw.Wrapper.Contract.{contract_to_json}
use strongclaw.Tests.Json.{dumps, loads}
use strongclaw.Tests.Fixtures.{toy, comment}

-- A policy whose default is the given decision.
abbrev always : String → Fields
always decision = field "defaults" (obj (field "decision" (str decision) end)) end

abbrev fresh : Operation
fresh = new_row toy 7 comment

-- A runtime with a JSON.
abbrev reader : Runtime
reader = record toy { dumps = dumps; loads = loads }

abbrev full_disk : Desk
full_disk = record {
  resolve = λ path. path;
  default_path = λ id. id;
  write = λ path op. some "No space left on device";
  error_text = λ e. "";
}

abbrev begun : Journal
begun = record { ops = fresh ∷ []; leases = [] }

begins : begin reader 7 comment empty_journal ≡ ok (fresh, begun)
unfolding begin find_key find_op insert_op op_id_at take_text show_nat new_row read_back
    idempotency_key
begins = refl

begun_found : find_op fresh.op_id begun.ops ≡ some fresh
unfolding find_op new_row op_id_at take_text show_nat
begun_found = refl

decides_allow : evaluate reader (always "allow") end ≡ plain "allow" ("default" ∷ []) []
unfolding evaluate zone_denies string_members get zone mapping_or_empty zone_omits target_omitted
    text_at to_text value_or run_rules sweep rule_items approval_id build_review_decision
    default_decision
decides_allow = refl

decides_deny : (evaluate reader (always "deny") end).decision ≡ "deny"
unfolding evaluate zone_denies string_members get zone mapping_or_empty zone_omits target_omitted
    text_at to_text value_or run_rules sweep rule_items approval_id build_review_decision
    default_decision
decides_deny = refl

decides_review : (evaluate reader (always "require_approval") end).decision ≡ "require_approval"
unfolding evaluate zone_denies string_members get zone mapping_or_empty zone_omits target_omitted
    text_at to_text value_or run_rules sweep rule_items approval_id build_review_decision
    default_decision
decides_review = refl

abbrev allowed : Decision
allowed = plain "allow" ("default" ∷ []) []

contract_read :
    reader.loads (contract_to_json reader (build_contract fresh allowed))
    ≡ some (sort_keys (obj (contract_to_dict (build_contract fresh allowed))))
unfolding contract_to_json contract_to_dict build_contract new_row show_nat op_id_at take_text
contract_read = refl

prepare_allows_example :
    Cleared reader
      (prepare_operation reader (always "allow") full_disk false 7 8 9 end comment empty_journal)
prepare_allows_example =
    prepare_allows reader (always "allow") full_disk false 7 8 9 end fresh comment empty_journal
      begun begins begun_found (unfold new_row in refl)
      (ap (λ (d : Decision). d.decision == "deny") decides_allow)
      (ap (λ (d : Decision). d.decision == "require_approval") decides_allow) refl
      (subst
        (λ (d : Decision).
          reader.loads (contract_to_json reader (build_contract fresh d))
          ≡ some (sort_keys (obj (contract_to_dict (build_contract fresh d)))))
        (sym decides_allow) contract_read)

prepare_denies_example :
    Refused
      (prepare_operation reader (always "deny") full_disk false 7 8 9 end comment empty_journal)
prepare_denies_example =
    prepare_denies reader (always "deny") full_disk false 7 8 9 end fresh comment empty_journal
      begun begins begun_found (unfold new_row in refl)
      (ap (λ (s : String). s == "deny") decides_deny)

prepare_asks_example : Asked (
    prepare_operation reader
      (always "require_approval")
      full_disk
      false
      7
      8
      9
      end
      comment
      empty_journal)
prepare_asks_example =
    prepare_asks reader (always "require_approval") full_disk false 7 8 9 end fresh comment
      empty_journal begun begins begun_found (unfold new_row in refl)
      (ap (λ (s : String). s == "deny") decides_review)
      (ap (λ (s : String). s == "require_approval") decides_review)
