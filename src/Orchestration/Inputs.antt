-- ===== src/Orchestration/Inputs.antt =====
-- The parts of a task mapping of src/clawops/orchestration.py with records of their own: the
-- context request (with the names of src/clawops/context/contracts.py) and the expected artifacts.
pub mod Checked
use strongclaw.Prelude.{
  ℕ, ◌+◌, String, ◌<>◌, Bool, true, Option, none, some, List, [], ◌∷◌, contains,
}
use strongclaw.Prelude.Text.{strip, is_nonempty}
use strongclaw.Value.{Value, str, arr, nat, bool, null, nil, Fields}
use strongclaw.Result.{Result, ok, err, wrong_type, wrong_value, require, ◌>>=◌, ◌>>◌}
use strongclaw.Typed.{
  get_value, get_default, as_mapping, as_string, as_bool, as_string_list, as_mapping_list,
  item_path, positive_int,
}
use strongclaw.Orchestration.Paths.{Host, resolve_path}

-- ROLE_NAMES
abbrev pub role_names : List String
role_names = "lead" ∷ "architect" ∷ "developer" ∷ "reviewer" ∷ "sdet" ∷ "qa" ∷ "release" ∷ []

abbrev pub context_providers : List String
context_providers = "codebase" ∷ []

abbrev pub context_scales : List String
context_scales = "small" ∷ "medium" ∷ "large" ∷ []

pub record ContextRequest : Type 0 where
  pub provider : String
  pub scale : String
  pub config_path : String
  pub query : String
  pub limit : ℕ
  pub ttl_seconds : ℕ
  pub prior_artifacts : List String

pub record ExpectedArtifact : Type 0 where
  pub name : String
  pub role : String
  pub path : String
  pub required : Bool

-- a text among the names that are allowed: TypeError if it is no text, ValueError if it is another
unfoldable pub one_of : List String → Value → String → Result String
one_of names v path = do s ← as_string v path; require (contains names s) (wrong_value path); ok s

-- `validate_context_provider` and `validate_context_scale`
unfoldable pub validate_context_provider : Value → String → Result String
unfolding one_of
validate_context_provider v path = one_of context_providers v path

unfoldable pub validate_context_scale : Value → String → Result String
unfolding one_of
validate_context_scale v path = one_of context_scales v path

-- `not isinstance(value, str) or not value` raises TypeError
unfoldable pub nonempty_text : Value → String → Result String
nonempty_text (str s) path = do require (is_nonempty s) (wrong_type path); ok s
nonempty_text v path = err (wrong_type path)

-- `not isinstance(value, str) or not value.strip()` raises TypeError
unfoldable pub nonblank_text : Value → String → Result String
nonblank_text (str s) path = do require (is_nonempty (strip s)) (wrong_type path); ok s
nonblank_text v path = err (wrong_type path)

-- `not isinstance(value, str) or value not in names` raises ValueError
unfoldable pub member_text : List String → Value → String → Result String
member_text names (str s) path = do require (contains names s) (wrong_value path); ok s
member_text names v path = err (wrong_value path)

module _ (host : Host) (base_dir : String) where
  -- `_resolve_path` of each of a sequence of texts
  unfoldable pub resolve_paths : List String → String → Result (List String)
  resolve_paths [] field_name = ok []
  resolve_paths (s ∷ texts) field_name = do
    path ← resolve_path host base_dir (str s) field_name
    paths ← resolve_paths texts field_name
    ok (path ∷ paths)

  -- the body of the loop of `_parse_expected_artifacts`
  unfoldable pub parse_artifact : ℕ → Fields → Result ExpectedArtifact
  unfolding nonempty_text member_text
  parse_artifact index item = do
    let place = item_path "task.expected_artifacts" index
    name ← nonempty_text (get_value "name" item) (place <> ".name")
    role ← member_text role_names (get_value "role" item) (place <> ".role")
    path ← resolve_path host base_dir (get_value "path" item) (place <> ".path")
    required ← as_bool (get_default "required" (bool true) item) (place <> ".required")
    ok (record { name = name; role = role; path = path; required = required })

  unfoldable pub parse_artifacts_from : ℕ → List Fields → Result (List ExpectedArtifact)
  parse_artifacts_from index [] = ok []
  parse_artifacts_from index (item ∷ items) = do
    artifact ← parse_artifact index item
    artifacts ← parse_artifacts_from (index + 1) items
    ok (artifact ∷ artifacts)

  -- `_parse_expected_artifacts`
  unfoldable pub parse_expected_artifacts : Value → Result (List ExpectedArtifact)
  unfolding parse_artifacts_from
  parse_expected_artifacts null = ok []
  parse_expected_artifacts v = do
    items ← as_mapping_list v "task.expected_artifacts"
    parse_artifacts_from 1 items

  -- a context request that is there
  unfoldable pub parse_context : Value → Result ContextRequest
  unfolding resolve_paths nonblank_text validate_context_provider validate_context_scale
  parse_context v = do
    context ← as_mapping v "task.context"
    provider ← validate_context_provider (get_value "provider" context) "task.context.provider"
    scale ← validate_context_scale (get_value "scale" context) "task.context.scale"
    config_path ← resolve_path host base_dir (get_value "config" context) "task.context.config"
    query ← nonblank_text (get_value "query" context) "task.context.query"
    limit ← positive_int (get_default "limit" (nat 8) context) "task.context.limit"
    ttl_seconds ←
        positive_int (get_default "ttl_seconds" (nat 900) context) "task.context.ttl_seconds"
    values ←
        as_string_list (get_default "prior_artifacts" (arr nil) context)
          "task.context.prior_artifacts"
    prior_artifacts ← resolve_paths values "task.context.prior_artifacts"
    ok (record {
      provider = provider;
      scale = scale;
      config_path = config_path;
      query = query;
      limit = limit;
      ttl_seconds = ttl_seconds;
      prior_artifacts = prior_artifacts;
    })

  -- `_parse_context_request`
  unfoldable pub parse_context_request : Value → Result (Option ContextRequest)
  unfolding parse_context
  parse_context_request null = ok none
  parse_context_request v = do request ← parse_context v; ok (some request)
