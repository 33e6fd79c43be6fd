-- ===== src/Orchestration/Descriptors/Contained.antt =====
-- What holds of the descriptors that `resolve` returns.
use strongclaw.Prelude.{
  String, true, false, Option, none, some, List, ◌∷◌, map, ◌==◌, ◌≡◌, refl, sym, ◌∙◌, subst, eq_iff,
  contains, ◌⊎◌, inl, inr, All,
}
use strongclaw.Prelude.Text.{is_nonempty}
use strongclaw.Value.{Fields}
use strongclaw.Runtime.{Runtime}
use strongclaw.Result.{
  descriptor_error, Ensures, ok-Ensures, err-Ensures, require-Ensures, test-Ensures, if-Ensures,
  bind-Ensures, Any-Ensures,
}
use strongclaw.Orchestration.Tokens.{every, is_token_char, validate_token}
use strongclaw.Orchestration.Tokens.Valid.{
  IsToken, validate_token-eq-ok, stable_descriptor_id-IsToken,
}
use strongclaw.Orchestration.Paths.{Host, resolved, within_any_root}
use strongclaw.Orchestration.Paths.Distinct.{
  Distinct, Fixed, map-Fixed, dedupe_paths_lem, dedupe_paths-Fixed, within_any_root_lem,
}
use strongclaw.Orchestration.Descriptors.{
  ProjectDescriptor, WorkspaceDescriptor, DeliveryTargetDescriptor, workspace_kinds,
  delivery_target_kinds, chosen_id, resolve_project, resolve_workspace, resolve_delivery_target,
  working_directory_of, checkout, check_bundle, copy_metadata,
}

pub validate_token-Ensures : (name value : String) → Ensures IsToken (validate_token name value)
validate_token-Ensures name value = record {
  at = λ t e. let (same, token) = validate_token-eq-ok name value e in subst IsToken same token;
}

-- An id is a token, if the derived id is.
chosen_id-Ensures :
    (name : String) (id : Option String) (derived : String)
    → IsToken derived
    → Ensures IsToken (chosen_id name id derived)
unfolding chosen_id
chosen_id-Ensures name none derived h = ok-Ensures derived h
chosen_id-Ensures name (some id) derived h =
    if-Ensures (is_nonempty id) _ _ (λ e. validate_token-Ensures name id)
      (λ e. ok-Ensures derived h)

contains_head : {x y : String} (xs : List String) → x ≡ y → contains (y ∷ xs) x ≡ true
contains_head {x} {y} xs e = rw ((eq_iff x y).1 e) refl

-- What the model asks of the libraries: digests are written in characters of tokens, as
-- hexadecimal digits are, and a resolved path resolves to itself.
pub record Documented (rt : Runtime) (host : Host) : Type 0 where
  pub digests : (s : String) → every is_token_char (rt.sha256_hex s) ≡ true
  pub stable : (path : String) → resolved host (resolved host path) ≡ resolved host path

module _ (rt : Runtime) (host : Host) where
  -- The root of a project is a directory and the first of its trusted roots, which are distinct and
  -- resolved; its id is a token.
  pub record IsProject (p : ProjectDescriptor) : Type 0 where
    pub id : IsToken p.project_id
    pub directory : host.is_dir p.root ≡ true
    pub rooted : contains p.trusted_roots p.root ≡ true
    pub distinct : Distinct p.trusted_roots
    pub fixed : All (Fixed host) p.trusted_roots

  -- A path lies under one of the trusted roots.
  pub record Under (p : ProjectDescriptor) (path root : String) : Type 0 where
    pub holds : host.relative_to path root ≡ true
    pub trusted : contains p.trusted_roots root ≡ true

  pub record IsWorkspace (p : ProjectDescriptor) (w : WorkspaceDescriptor) : Type 0 where
    pub id : IsToken w.workspace_id
    pub project : w.project_id ≡ p.project_id
    pub kind : contains workspace_kinds w.kind ≡ true
    pub exists : host.exists w.root ≡ true
    pub under : Under p w.root w.trusted_root

  -- A delivery target that is resolved belongs to the project, and a manual bundle exists under
  -- one of its trusted roots.
  pub record IsTarget (p : ProjectDescriptor) (t : DeliveryTargetDescriptor) : Type 0 where
    pub id : IsToken t.target_id
    pub project : t.project_id ≡ p.project_id
    pub kind : contains delivery_target_kinds t.kind ≡ true
    pub bundle :
        ((t.kind == "manual_bundle") ≡ false)
        ⊎ ((host.exists (resolved host t.locator) ≡ true)
            × (root : String) × Under p (resolved host t.locator) root)

  within-Under :
      (p : ProjectDescriptor)
      → IsProject p
      → (path : String)
      → Ensures (Under p (resolved host path)) (within_any_root host path p.trusted_roots)
  within-Under p h path = elim (within_any_root_lem host path p.trusted_roots) [
    | inl (root, e, (holds, at)) ↦ rw e (
        ok-Ensures root (record {
          holds = holds;
          trusted =
              subst (λ roots. contains roots root ≡ true) (map-Fixed host p.trusted_roots h.fixed)
                at;
        }))
    | inr (e, out) ↦ rw e (err-Ensures _)
  ]

  module _ (d : Documented rt host) where
    pub resolve_project-IsProject :
        (root : String) (id : Option String) (trusted : List String) (metadata : Option Fields)
        → Ensures IsProject (resolve_project rt host root id trusted metadata)
    unfolding resolve_project
    resolve_project-IsProject root id trusted metadata =
        let top = resolved host root in
        let roots = dedupe_paths_lem host (top ∷ trusted) in
        require-Ensures _ _ _ (
          test-Ensures _ _ _ (λ directory.
            bind-Ensures _ _
              (chosen_id-Ensures "project_id" id _
                (stable_descriptor_id-IsToken rt _ top (d.digests top)))
              (λ name token. ok-Ensures _ (record {
                id = token;
                directory = directory;
                rooted =
                    roots.1 top ∙ contains_head (map (resolved host) trusted) (sym (d.stable root));
                distinct = roots.0;
                fixed = dedupe_paths-Fixed host d.stable (top ∷ trusted);
              }))))

    pub resolve_workspace-IsWorkspace :
        (p : ProjectDescriptor) (kind path : String) (id branch : Option String)
        (metadata : Option Fields)
        → IsProject p
        → Ensures (IsWorkspace p) (resolve_workspace rt host p kind path id branch metadata)
    unfolding resolve_workspace
    resolve_workspace-IsWorkspace p kind path id branch metadata h =
        let top = resolved host path in
        test-Ensures (contains workspace_kinds kind) (descriptor_error "workspace kind" kind) _
          (λ known. test-Ensures _ _ _ (λ exists.
            bind-Ensures _ _ (Any-Ensures (working_directory_of rt host kind top)) (λ directory a.
              bind-Ensures _ _ (within-Under p h top) (λ root under.
                bind-Ensures _ _
                  (Any-Ensures (checkout rt host kind directory branch (copy_metadata metadata)))
                  (λ checked b.
                    bind-Ensures _ _
                      (chosen_id-Ensures "workspace_id" id _
                        (stable_descriptor_id-IsToken rt kind _ (d.digests _)))
                      (λ name token. ok-Ensures _ (record {
                        id = token;
                        project = refl;
                        kind = known;
                        exists = exists;
                        under = subst (λ at. Under p at root) (d.stable path) under;
                      })))))))

    check_bundle-Ensures :
        (p : ProjectDescriptor) (kind locator : String)
        → IsProject p
        → Ensures
            (λ done.
              ((kind == "manual_bundle") ≡ false)
              ⊎ ((host.exists (resolved host locator) ≡ true)
                  × (root : String) × Under p (resolved host locator) root))
            (check_bundle rt host p.trusted_roots kind locator)
    unfolding check_bundle
    check_bundle-Ensures p kind locator h =
        if-Ensures _ _ _
          (λ e. test-Ensures _ _ _ (λ exists.
            bind-Ensures _ _ (within-Under p h (resolved host locator)) (λ root under.
              ok-Ensures tt
                (inr (exists, root, subst (λ at. Under p at root) (d.stable locator) under)))))
          (λ other. ok-Ensures tt (inl other))

    pub resolve_delivery_target-IsTarget :
        (p : ProjectDescriptor) (kind locator : String) (id : Option String)
        (metadata : Option Fields)
        → IsProject p
        → Ensures (IsTarget p) (resolve_delivery_target rt host p kind locator id metadata)
    unfolding resolve_delivery_target
    resolve_delivery_target-IsTarget p kind locator id metadata h =
        test-Ensures (contains delivery_target_kinds kind)
          (descriptor_error "delivery target kind" kind) _
          (λ known. require-Ensures _ _ _ (
            bind-Ensures _ _ (check_bundle-Ensures p kind locator h) (λ done bundle.
              bind-Ensures _ _
                (chosen_id-Ensures "target_id" id _
                  (stable_descriptor_id-IsToken rt kind _ (d.digests _)))
                (λ name token.
                  ok-Ensures _
                    (record { id = token; project = refl; kind = known; bundle = bundle })))))
