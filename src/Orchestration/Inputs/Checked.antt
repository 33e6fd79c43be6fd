-- ===== src/Orchestration/Inputs/Checked.antt =====
-- What holds of a context request and of expected artifacts that are parsed.
use strongclaw.Prelude.{
  ℕ, ◌+◌, ◌<◌, String, ◌<>◌, true, Option, none, some, List, [], ◌∷◌, ◌≡◌, contains, All, ltb,
  ltb→lt,
}
use strongclaw.Prelude.Text.{strip, is_nonempty}
use strongclaw.Value.{Value, str, arr, nat, bool, null, nil, Fields}
use strongclaw.Result.{
  wrong_type, wrong_value, Ensures, ok-Ensures, err-Ensures, test-Ensures, bind-Ensures,
  Any-Ensures,
}
use strongclaw.Typed.{
  get_value, get_default, as_mapping, as_string, as_bool, as_string_list, as_mapping_list,
  item_path, positive_int,
}
use strongclaw.Orchestration.Paths.{Host, resolve_path}
use strongclaw.Orchestration.Inputs.{
  role_names, context_providers, context_scales, ContextRequest, ExpectedArtifact, one_of,
  validate_context_provider, validate_context_scale, nonempty_text, nonblank_text, member_text,
  resolve_paths, parse_artifact, parse_artifacts_from, parse_expected_artifacts, parse_context,
  parse_context_request,
}

-- The provider and the scale are known, the query is not blank, both bounds are positive.
pub record IsContext (c : ContextRequest) : Type 0 where
  pub provider : contains context_providers c.provider ≡ true
  pub scale : contains context_scales c.scale ≡ true
  pub query : is_nonempty (strip c.query) ≡ true
  pub limit : 0 < c.limit
  pub ttl : 0 < c.ttl_seconds

-- An artifact has a name, and a role of the known ones.
pub record IsArtifact (a : ExpectedArtifact) : Type 0 where
  pub name : is_nonempty a.name ≡ true
  pub role : contains role_names a.role ≡ true

pub positive_int-Ensures : (v : Value) (path : String) → Ensures (λ n. 0 < n) (positive_int v path)
unfolding positive_int
positive_int-Ensures (nat n) path =
    test-Ensures (ltb 0 n) (wrong_value path) _ (λ e. ok-Ensures n (ltb→lt 0 n e))
positive_int-Ensures v path = err-Ensures _

pub nonempty_text-Ensures :
    (v : Value) (path : String) → Ensures (λ s. is_nonempty s ≡ true) (nonempty_text v path)
unfolding nonempty_text
nonempty_text-Ensures (str s) path =
    test-Ensures (is_nonempty s) (wrong_type path) _ (λ e. ok-Ensures s e)
nonempty_text-Ensures v path = err-Ensures _

pub nonblank_text-Ensures :
    (v : Value) (path : String) → Ensures (λ s. is_nonempty (strip s) ≡ true) (nonblank_text v path)
unfolding nonblank_text
nonblank_text-Ensures (str s) path =
    test-Ensures (is_nonempty (strip s)) (wrong_type path) _ (λ e. ok-Ensures s e)
nonblank_text-Ensures v path = err-Ensures _

pub member_text-Ensures :
    (names : List String) (v : Value) (path : String)
    → Ensures (λ s. contains names s ≡ true) (member_text names v path)
unfolding member_text
member_text-Ensures names (str s) path =
    test-Ensures (contains names s) (wrong_value path) _ (λ e. ok-Ensures s e)
member_text-Ensures names v path = err-Ensures _

one_of-Ensures :
    (names : List String) (v : Value) (path : String)
    → Ensures (λ s. contains names s ≡ true) (one_of names v path)
unfolding one_of
one_of-Ensures names v path =
    bind-Ensures (as_string v path) _ (Any-Ensures (as_string v path))
      (λ s a. test-Ensures (contains names s) (wrong_value path) _ (λ e. ok-Ensures s e))

-- absent, or as the predicate says
abbrev pub AbsentOr {ℓ κ} : {A : Type ℓ} → (A → Type κ) → Option A → Type κ
AbsentOr P none = Unit
AbsentOr P (some a) = P a

module _ (host : Host) (base_dir : String) where
  parse_artifact-IsArtifact :
      (index : ℕ) (item : Fields) → Ensures IsArtifact (parse_artifact host base_dir index item)
  unfolding parse_artifact
  parse_artifact-IsArtifact index item =
      let place = item_path "task.expected_artifacts" index in
      bind-Ensures _ _ (nonempty_text-Ensures (get_value "name" item) _) (λ name named.
        bind-Ensures _ _ (member_text-Ensures role_names (get_value "role" item) _) (λ role known.
          bind-Ensures _ _
            (Any-Ensures (resolve_path host base_dir (get_value "path" item) (place <> ".path")))
            (λ path a.
              bind-Ensures _ _
                (Any-Ensures
                  (as_bool (get_default "required" (bool true) item) (place <> ".required")))
                (λ required b. ok-Ensures _ (record { name = named; role = known })))))

  parse_artifacts_from-All :
      (index : ℕ) (items : List Fields)
      → Ensures (All IsArtifact) (parse_artifacts_from host base_dir index items)
  unfolding parse_artifacts_from
  parse_artifacts_from-All index [] = ok-Ensures [] tt
  parse_artifacts_from-All index (item ∷ items) =
      bind-Ensures _ _ (parse_artifact-IsArtifact index item) (λ artifact h.
        bind-Ensures _ _ (parse_artifacts_from-All (index + 1) items)
          (λ artifacts hs. ok-Ensures (artifact ∷ artifacts) (h, hs)))

  pub parse_expected_artifacts-All :
      (v : Value) → Ensures (All IsArtifact) (parse_expected_artifacts host base_dir v)
  unfolding parse_expected_artifacts
  parse_expected_artifacts-All null = ok-Ensures [] tt
  parse_expected_artifacts-All v =
      bind-Ensures _ _ (Any-Ensures (as_mapping_list v "task.expected_artifacts"))
        (λ items a. parse_artifacts_from-All 1 items)

  parse_context-IsContext : (v : Value) → Ensures IsContext (parse_context host base_dir v)
  unfolding parse_context validate_context_provider validate_context_scale
  parse_context-IsContext v = bind-Ensures _ _ (Any-Ensures (as_mapping v "task.context")) (λ fs a.
      bind-Ensures _ _ (one_of-Ensures context_providers (get_value "provider" fs) _)
        (λ provider hp.
          bind-Ensures _ _ (one_of-Ensures context_scales (get_value "scale" fs) _) (λ scale hs.
            bind-Ensures _ _
              (Any-Ensures
                (resolve_path host base_dir (get_value "config" fs) "task.context.config"))
              (λ config b.
                bind-Ensures _ _ (nonblank_text-Ensures (get_value "query" fs) _) (λ query hq.
                  bind-Ensures _ _ (positive_int-Ensures (get_default "limit" (nat 8) fs) _)
                    (λ limit hl.
                      bind-Ensures _ _
                        (positive_int-Ensures (get_default "ttl_seconds" (nat 900) fs) _)
                        (λ ttl ht.
                          bind-Ensures _ _
                            (Any-Ensures (
                              as_string_list (get_default "prior_artifacts" (arr nil) fs)
                                "task.context.prior_artifacts"))
                            (λ values c.
                              bind-Ensures _ _
                                (Any-Ensures (
                                  resolve_paths host base_dir values
                                    "task.context.prior_artifacts"))
                                (λ prior e. ok-Ensures _ (record {
                                  provider = hp;
                                  scale = hs;
                                  query = hq;
                                  limit = hl;
                                  ttl = ht;
                                }))))))))))

  pub parse_context_request-AbsentOr :
      (v : Value) → Ensures (AbsentOr IsContext) (parse_context_request host base_dir v)
  unfolding parse_context_request
  parse_context_request-AbsentOr null = ok-Ensures none tt
  parse_context_request-AbsentOr v =
      bind-Ensures _ _ (parse_context-IsContext v) (λ request h. ok-Ensures (some request) h)
