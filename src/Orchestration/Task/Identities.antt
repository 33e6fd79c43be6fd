-- ===== src/Orchestration/Task/Identities.antt =====
-- The identities of a task that is resolved.
use strongclaw.Prelude.{
  String, true, List, [], ◌∷◌, ◌==◌, ◌≡◌, refl, subst, sym, eq_iff, contains, All, Bool-cases, inl,
  inr,
}
use strongclaw.Value.{Value}
use strongclaw.Runtime.{Runtime}
use strongclaw.Result.{ok, ◌>>=◌}
use strongclaw.Orchestration.Tokens.{every, is_token_char, validate_token}
use strongclaw.Orchestration.Tokens.Valid.{IsToken, IsToken-validate_token}
use strongclaw.Orchestration.Identity.{join_five, build_session_identity, build_lock_identity}
use strongclaw.Orchestration.Paths.{Host}
use strongclaw.Orchestration.Descriptors.Contained.{Documented}
use strongclaw.Orchestration.Inputs.{role_names}
use strongclaw.Orchestration.Task.{
  OrchestrationTask, session_identity, lock_identity, resolve_orchestration_task,
}
use strongclaw.Orchestration.Task.Checked.{resolve_orchestration_task-IsTask}

contains-All :
    (names : List String) (s : String) → contains names s ≡ true → All IsToken names → IsToken s
contains-All [] s h all = absurd (cc)
contains-All (n ∷ names) s h (token, all) = elim (Bool-cases (s == n)) [
  | inl e ↦ subst IsToken (sym ((eq_iff s n).0 e)) token
  | inr e ↦ contains-All names s (rw e at h) all
]

role_tokens : All IsToken role_names
unfolding every is_token_char
role_tokens = (
  record { nonempty = refl; chars = refl },
  (
    record { nonempty = refl; chars = refl },
    (
      record { nonempty = refl; chars = refl },
      (
        record { nonempty = refl; chars = refl },
        (
          record { nonempty = refl; chars = refl },
          (
            record { nonempty = refl; chars = refl },
            (record { nonempty = refl; chars = refl }, tt),
          ),
        ),
      ),
    ),
  ),
)

-- Where the libraries do as documented, a task that is resolved has a lock identity, and it has a
-- session identity just when its backend is a valid token, whose error it is otherwise.
pub identities_of_task :
    (rt : Runtime) (host : Host) (base_dir : String) (v : Value) (t : OrchestrationTask)
    → Documented rt host
    → resolve_orchestration_task rt host base_dir v ≡ ok t
    → (lock_identity t
        ≡ ok (
            join_five t.project.project_id t.workspace.workspace_id t.lane t.role t.operation_kind))
      × (session_identity t ≡ (do
        backend ← validate_token "backend" t.backend
        ok (join_five backend t.project.project_id t.workspace.workspace_id t.lane t.role)))
unfolding lock_identity session_identity build_lock_identity build_session_identity
identities_of_task rt host base_dir v t d e =
    let h = resolve_orchestration_task-IsTask rt host base_dir v t d e in
    let role = contains-All role_names t.role h.role role_tokens in
    (
      rw
          (
            IsToken-validate_token "project_id" t.project.project_id h.project.id,
            IsToken-validate_token "workspace_id" t.workspace.workspace_id h.workspace.id,
            IsToken-validate_token "lane" t.lane h.lane,
            IsToken-validate_token "role" t.role role,
            IsToken-validate_token "operation_kind" t.operation_kind h.kind,
          )
          refl,
      rw
          (
            IsToken-validate_token "project_id" t.project.project_id h.project.id,
            IsToken-validate_token "workspace_id" t.workspace.workspace_id h.workspace.id,
            IsToken-validate_token "lane" t.lane h.lane,
            IsToken-validate_token "role" t.role role,
          )
          refl,
    )
