-- ===== src/Journal/Status.antt =====
-- `ALLOWED_TRANSITIONS` and `_validate_transition` of src/clawops/op_journal.py.
pub mod Edges
use strongclaw.Prelude.{
  String, ◌≡◌, Bool, Option, none, some, List, [], ◌∷◌, ◌==◌, if◌then◌else◌, contains,
}
use strongclaw.Result.{Result, ok, err, invalid_transition, require}

abbrev pub allowed_transitions : List (String × List String)
allowed_transitions =
    ("proposed", "failed" ∷ "pending_approval" ∷ "approved" ∷ "cancelled" ∷ "rejected" ∷ [])
    ∷ ("pending_approval", "approved" ∷ "failed" ∷ "cancelled" ∷ "rejected" ∷ [])
    ∷ ("approved", "running" ∷ "failed" ∷ "cancelled" ∷ [])
    ∷ ("running", "succeeded" ∷ "failed" ∷ "cancelled" ∷ [])
    ∷ ("succeeded", [])
    ∷ ("failed", [])
    ∷ ("cancelled", [])
    ∷ ("rejected", [])
    ∷ []

-- ALLOWED_TRANSITIONS.get(status)
unfoldable pub targets : List (String × List String) → String → Option (List String)
targets [] status = none
targets ((s, ts) ∷ table) status = if status == s then some ts else targets table status

unfoldable pub is_allowed : Option (List String) → String → Bool
is_allowed none new = Bool.false
is_allowed (some allowed) new = contains allowed new

unfoldable pub validate_transition : String → String → Result (Unit {0})
unfolding targets is_allowed
validate_transition current new =
    if current == new
    then ok tt
    else require (is_allowed (targets allowed_transitions current) new)
        (invalid_transition current new)
