-- ===== src/Typed.antt =====
-- Coercions of dynamic values: src/clawops/typed_values.py. A key that is missing reads as None.
use strongclaw.Prelude.{
  ℕ, suc, String, ◌<>◌, Bool, true, false, not, Option, none, some, List, [], ◌∷◌, ltb, eqb,
}
use strongclaw.Prelude.Text.{show_nat, is_nonempty}
use strongclaw.Value.{
  Value, str, obj, arr, nat, neg, bool, null, Items, nil, cons, Fields, end, field,
}
use strongclaw.Value.Access.{get}
use strongclaw.Policy.Access.{value_or}
use strongclaw.Result.{Result, ok, err, wrong_type, wrong_value, require, ◌>>=◌, ◌>>◌}

-- d.get(key)
unfoldable pub get_value : String → Fields → Value
get_value key fs = value_or (get key fs) null

-- d.get(key, default)
unfoldable pub get_default : String → Value → Fields → Value
get_default key default fs = value_or (get key fs) default

-- bool(value)
unfoldable pub truth : Value → Bool
truth null = false
truth (bool b) = b
truth (nat n) = not (eqb n 0)
truth (neg n) = true
truth (str s) = is_nonempty s
truth (arr nil) = false
truth (arr (cons x xs)) = true
truth (obj end) = false
truth (obj (field k v fs)) = true

-- `as_mapping`
unfoldable pub as_mapping : Value → String → Result Fields
as_mapping (obj fs) path = ok fs
as_mapping v path = err (wrong_type path)

-- `as_optional_mapping`
unfoldable pub as_optional_mapping : Value → String → Result (Option Fields)
as_optional_mapping null path = ok none
as_optional_mapping v path = do fs ← as_mapping v path; ok (some fs)

-- `as_string`
unfoldable pub as_string : Value → String → Result String
as_string (str s) path = ok s
as_string v path = err (wrong_type path)

-- `as_bool`
unfoldable pub as_bool : Value → String → Result Bool
as_bool (bool b) path = ok b
as_bool v path = err (wrong_type path)

-- value if isinstance(value, str) else None
unfoldable pub string_or_none : Value → Option String
string_or_none (str s) = some s
string_or_none v = none

-- f"{path}[{index}]"
unfoldable pub item_path : String → ℕ → String
item_path path index = path <> "[" <> show_nat index <> "]"

unfoldable pub strings_from : ℕ → Items → String → Result (List String)
strings_from index nil path = ok []
strings_from index (cons v items) path = do
  s ← as_string v (item_path path index)
  rest ← strings_from (suc index) items path
  ok (s ∷ rest)

-- `as_string_list`
unfoldable pub as_string_list : Value → String → Result (List String)
unfolding strings_from
as_string_list (arr items) path = strings_from 0 items path
as_string_list v path = err (wrong_type path)

unfoldable pub mappings_from : ℕ → Items → String → Result (List Fields)
mappings_from index nil path = ok []
mappings_from index (cons v items) path = do
  fs ← as_mapping v (item_path path index)
  rest ← mappings_from (suc index) items path
  ok (fs ∷ rest)

-- `as_mapping_list`
unfoldable pub as_mapping_list : Value → String → Result (List Fields)
unfolding mappings_from
as_mapping_list (arr items) path = mappings_from 0 items path
as_mapping_list v path = err (wrong_type path)

-- an integer that is not a boolean and is greater than 0, or ValueError
unfoldable pub positive_int : Value → String → Result ℕ
positive_int (nat n) path = do require (ltb 0 n) (wrong_value path); ok n
positive_int v path = err (wrong_value path)

-- an integer that is not a boolean and not less than 0, or ValueError
unfoldable pub natural_int : Value → String → Result ℕ
natural_int (nat n) path = ok n
natural_int v path = err (wrong_value path)
