-- ===== src/Value/Sorted.antt =====
-- The order that `json.dumps` gives the keys of dictionaries with `sort_keys=True`, at every depth:
-- that of their code points. `json.loads` reads them in the order of the text.
use Prim.Native.String.{compare}
use Prim.Native.Nat.{Ordering}
use strongclaw.Prelude.{String, Bool, true, false, if◌then◌else◌}
use strongclaw.Value.{Value, obj, arr, Items, nil, cons, Fields, end, field}

abbrev pub before_text : String → String → Bool
before_text s t = elim (compare s t) [ Ordering.gt ↦ false | _ ↦ true ]

abbrev pub insert_key : String → Value → Fields → Fields
insert_key key v end = field key v end
insert_key key v (field k w fs) =
    if before_text key k then field key v (field k w fs) else field k w (insert_key key v fs)

abbrev mutual
  pub sort_fields : Fields → Fields
  sort_fields end = end
  sort_fields (field key v fs) = insert_key key (sort_keys v) (sort_fields fs)

  pub sort_items : Items → Items
  sort_items nil = nil
  sort_items (cons v vs) = cons (sort_keys v) (sort_items vs)

  pub sort_keys : Value → Value
  sort_keys (obj fs) = obj (sort_fields fs)
  sort_keys (arr vs) = arr (sort_items vs)
  sort_keys v = v
