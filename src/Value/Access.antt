-- ===== src/Value/Access.antt =====
-- d.get(k), `dict.update`, sequences of strings, and truth and equality of values.
use strongclaw.Prelude.{String, Option, none, some, ◌==◌, if◌then◌else◌}
use strongclaw.Value.{Value, Fields, end, field}

-- d.get(key)
unfoldable pub get : String → Fields → Option Value
get key end = none
get key (field k v fs) = if k == key then some v else get key fs

-- d[key] = v; a dictionary keeps the place of a key that it has
unfoldable pub put : String → Value → Fields → Fields
put key v end = field key v end
put key v (field k w fs) = if k == key then field k v fs else field k w (put key v fs)

-- d.update(updates)
unfoldable pub update : Fields → Fields → Fields
unfolding put
update fs end = fs
update fs (field k v us) = update (put k v fs) us
