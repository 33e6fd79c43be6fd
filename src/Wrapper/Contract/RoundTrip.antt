-- ===== src/Wrapper/Contract/RoundTrip.antt =====
-- A contract of src/clawops/wrappers/base.py that was stored is read back, and matches its row.
use strongclaw.Prelude.{String, Option, ◌≡◌, refl, true, ap, some, ◌∙◌, ◌==◌, eq_refl}
use strongclaw.Value.{Value, obj}
use strongclaw.Value.Access.{get}
use strongclaw.Value.Sorted.{sort_fields, sort_keys}
use strongclaw.Runtime.{Runtime}
use strongclaw.Journal.Rows.{Operation}
use strongclaw.Journal.Tables.Laws.{Identity, identity}
use strongclaw.Policy.Decision.{Decision}
use strongclaw.Wrapper.Contract.{
  contract_version, contract_to_dict, contract_to_json, build_contract, matches, text_is,
  contract_from_fields, contract_at, loaded_contract, contract_from_operation,
}

from_dict :
    (op : Operation) (d : Decision)
    → contract_from_fields
        (sort_fields (contract_to_dict (build_contract op d)))
        (some contract_version)
      ≡ some (build_contract op d)
unfolding contract_from_fields contract_to_dict get build_contract
from_dict op d = refl

same_part : (part : Identity → String) (i k : Identity) → k ≡ i → (part i == part k) ≡ true
same_part part i k same = ap (λ (t : Identity). part i == part t) same ∙ eq_refl (part i)

built_matches :
    (op row : Operation) (d : Decision)
    → identity row ≡ identity op
    → row.policy_decision ≡ some d.decision
    → matches (build_contract op d) row ≡ true
unfolding matches build_contract
built_matches op row d same decided =
    let a = same_part (λ i. i.scope) (identity op) (identity row) same in
    let b = same_part (λ i. i.kind) (identity op) (identity row) same in
    let c = same_part (λ i. i.trust_zone) (identity op) (identity row) same in
    let e = same_part (λ i. i.normalized_target) (identity op) (identity row) same in
    let f = same_part (λ i. i.inputs_hash) (identity op) (identity row) same in
    let g : text_is d.decision row.policy_decision ≡ true =
      ap (text_is d.decision) decided ∙ eq_refl d.decision in
    rw (a, b, c, e, f, g) refl

module _ (rt : Runtime) (op row : Operation) (d : Decision) where
  -- A row that stores the contract built for an operation and a decision, with its version and the
  -- decision, and that has the operation's identity: if `json.loads` reads the text of the contract
  -- back, with its keys in the order that `sort_keys=True` gives them, the contract loaded from the row is the one that was built, and it matches the row.
  pub contract_round_trip :
      identity row ≡ identity op
      → row.policy_decision ≡ some d.decision
      → row.execution_contract_version ≡ some contract_version
      → row.execution_contract_json ≡ some (contract_to_json rt (build_contract op d))
      → rt.loads (contract_to_json rt (build_contract op d))
        ≡ some (sort_keys (obj (contract_to_dict (build_contract op d))))
      → (contract_from_operation rt row ≡ some (build_contract op d))
        × (matches (build_contract op d) row ≡ true)
  unfolding contract_from_operation contract_at
  contract_round_trip same decided version stored loads = (
    ap (λ (raw : Option String). contract_at rt raw row.execution_contract_version) stored
        ∙ ap (λ (v : Option Value). loaded_contract rt v row.execution_contract_version) loads
        ∙ ap (contract_from_fields (sort_fields (contract_to_dict (build_contract op d)))) version
        ∙ from_dict op d,
    built_matches op row d same decided,
  )
