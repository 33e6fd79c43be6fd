-- ===== src/Policy/Access.antt =====
-- `_mapping_or_none`, `_mapping_or_empty` and `_string_members` of src/clawops/policy_engine.py; a
-- missing key is `none`.
use strongclaw.Prelude.{String, Bool, true, false, Option, none, some, List, [], ◌∷◌}
use strongclaw.Value.{Value, str, arr, obj, Items, nil, cons, Fields, end}

unfoldable pub mapping_or_none : Option Value → Option Fields
mapping_or_none none = none
mapping_or_none (some (obj fs)) = some fs
mapping_or_none (some v) = none

unfoldable pub mapping_or_empty : Option Value → Fields
mapping_or_empty none = end
mapping_or_empty (some (obj fs)) = fs
mapping_or_empty (some v) = end

-- the string items of a sequence
unfoldable pub item_texts : Items → List String
item_texts nil = []
item_texts (cons (str s) xs) = s ∷ item_texts xs
item_texts (cons x xs) = item_texts xs

-- a set, of which the code asks for members and whether it is empty
unfoldable pub string_members : Option Value → List String
unfolding item_texts
string_members none = []
string_members (some (arr xs)) = item_texts xs
string_members (some v) = []

-- bool(set)
abbrev pub has_members : List String → Bool
has_members [] = false
has_members (x ∷ xs) = true

-- d.get(key, default)
unfoldable pub value_or : Option Value → Value → Value
value_or none d = d
value_or (some v) d = v
