-- ===== src/Runtime.antt =====
-- What the modelled code calls of Python's libraries: `hashlib.sha256(...).hexdigest()` and
-- `json.dumps` as `sha256_hex` and `canonical_json` of src/clawops/common.py wrap them, the ASCII
-- `json.dumps` of src/clawops/wrappers/base.py as `dumps`, which sorts the keys (`sort_keys=True`, see
-- Value/Sorted), `json.loads` (`none` is a JSONDecodeError),
-- `fnmatch.fnmatch`, `str` of a list or dictionary, and `delay`, which is what `float` and
-- `parsedate_to_datetime` make of a Retry-After text: thousandths of a second from now on, at
-- least 0. They are parameters of the model.
use strongclaw.Prelude.{ℕ, String, Bool, Option}
use strongclaw.Value.{Value}

pub record Runtime : Type 0 where
  pub sha256_hex : String → String
  pub canonical_json : Value → String
  pub dumps : Value → String
  pub loads : String → Option Value
  pub fnmatch : String → String → Bool
  pub repr : Value → String
  pub delay : String → Option ℕ
