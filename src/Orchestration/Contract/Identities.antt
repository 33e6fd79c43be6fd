-- ===== src/Orchestration/Contract/Identities.antt =====
-- The contract of a task holds all that its identities are made of.
use strongclaw.Prelude.{
  String, false, Option, none, some, ◌==◌, ◌≡◌, refl, ap, sym, ◌∙◌, eq_iff, arith, if◌then◌else◌,
}
use strongclaw.Value.{Value, str, Fields, end, field}
use strongclaw.Value.Access.{get, put}
use strongclaw.Runtime.{Runtime}
use strongclaw.Orchestration.Descriptors.{DeliveryTargetDescriptor}
use strongclaw.Orchestration.Inputs.{ContextRequest}
use strongclaw.Orchestration.Task.{OrchestrationTask, session_identity, lock_identity}
use strongclaw.Orchestration.Contract.{with_context, with_target, base_contract, to_contract}

get-put :
    (key k : String) (v : Value) (fs : Fields)
    → get key (put k v fs) ≡ (if k == key then some v else get key fs)
unfolding get put
get-put key k v end = refl
get-put key k v (field j w fs) =
    ground (arith, eq_iff k key, eq_iff j k, eq_iff j key, get-put key k v fs)

get-with_context :
    (key : String) (c : Option ContextRequest) (fs : Fields)
    → ("context" == key) ≡ false
    → get key (with_context c fs) ≡ get key fs
unfolding with_context
get-with_context key none fs h = refl
get-with_context key (some c) fs h = get-put key "context" _ fs ∙ (rw h refl)

get-with_target :
    (key : String) (t : Option DeliveryTargetDescriptor) (fs : Fields)
    → ("delivery_target" == key) ≡ false
    → get key (with_target t fs) ≡ get key fs
unfolding with_target
get-with_target key none fs h = refl
get-with_target key (some t) fs h = get-put key "delivery_target" _ fs ∙ (rw h refl)

module _ (rt : Runtime) where
  -- an entry of the contract that is not one of the two optional ones
  base_entry :
      (key : String) (t : OrchestrationTask)
      → ("context" == key) ≡ false
      → ("delivery_target" == key) ≡ false
      → get key (to_contract rt t) ≡ get key (base_contract rt t)
  unfolding to_contract
  base_entry key t hc ht =
      get-with_target key t.delivery_target _ ht ∙ get-with_context key t.context_request _ hc

  same_text : {a b : String} → some (str a) ≡ some (str b) → a ≡ b
  same_text e = cc

  -- a text that two equal contracts have at a key
  same_entry :
      (key : String) (t u : OrchestrationTask) (a b : String)
      → ("context" == key) ≡ false
      → ("delivery_target" == key) ≡ false
      → get key (base_contract rt t) ≡ some (str a)
      → get key (base_contract rt u) ≡ some (str b)
      → to_contract rt t ≡ to_contract rt u
      → a ≡ b
  same_entry key t u a b hc ht ea eb same =
      same_text
        (sym ea ∙ sym (base_entry key t hc ht) ∙ ap (get key) same ∙ base_entry key u hc ht ∙ eb)

  -- Tasks with the same contract have the same session identity and the same lock identity.
  pub contract_identities :
      (t u : OrchestrationTask)
      → to_contract rt t ≡ to_contract rt u
      → (session_identity t ≡ session_identity u) × (lock_identity t ≡ lock_identity u)
  unfolding session_identity lock_identity base_contract get
  contract_identities t u same =
      let project =
        same_entry "project_id" t u t.project.project_id u.project.project_id refl refl refl refl
          same in
      let workspace =
        same_entry "workspace_id" t u t.workspace.workspace_id u.workspace.workspace_id refl refl
          refl refl same in
      let lane = same_entry "lane" t u t.lane u.lane refl refl refl refl same in
      let role = same_entry "role" t u t.role u.role refl refl refl refl same in
      let backend = same_entry "backend" t u t.backend u.backend refl refl refl refl same in
      let kind =
        same_entry "operation_kind" t u t.operation_kind u.operation_kind refl refl refl refl
          same in
      (cc (project, workspace, lane, role, backend), cc (project, workspace, lane, role, kind))
