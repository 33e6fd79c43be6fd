-- ===== src/Journal/Tables.antt =====
-- The SQL statements of src/clawops/op_journal.py over the table `op`: SELECT by key, UPDATE of one
-- row, INSERT with its PRIMARY KEY and UNIQUE constraints.
pub mod Laws
use strongclaw.Prelude.{
  String, Bool, true, false, ◌&&◌, ◌||◌, Option, none, some, List, [], ◌∷◌, ◌++◌, ◌==◌,
  if◌then◌else◌, is_some,
}
use strongclaw.Result.{Result, ok, err, unknown_operation, integrity_error, row_missing}
use strongclaw.Journal.Rows.{Operation, Journal}

-- SELECT * FROM op WHERE op_id = ?
unfoldable pub find_op : String → List Operation → Option Operation
find_op id [] = none
find_op id (o ∷ os) = if o.op_id == id then some o else find_op id os

-- SELECT * FROM op WHERE scope = ? AND idempotency_key = ?
unfoldable pub find_key : String → String → List Operation → Option Operation
find_key scope key [] = none
find_key scope key (o ∷ os) =
    if o.scope == scope && o.idempotency_key == key then some o else find_key scope key os

-- UPDATE op SET ... WHERE op_id = ?
unfoldable pub update_op : String → (Operation → Operation) → List Operation → List Operation
update_op id f [] = []
update_op id f (o ∷ os) = (if o.op_id == id then f o else o) ∷ update_op id f os

-- INSERT INTO op, with PRIMARY KEY (op_id) and UNIQUE (scope, idempotency_key)
unfoldable pub insert_op : Operation → List Operation → Result (List Operation)
insert_op o os =
    if is_some (find_op o.op_id os) || is_some (find_key o.scope o.idempotency_key os)
    then err integrity_error
    else ok (os ++ o ∷ [])

unfoldable pub or_unknown : String → Option Operation → Result Operation
or_unknown id none = err (unknown_operation id)
or_unknown id (some o) = ok o

-- the SELECT that opens each call on one operation, and the whole of `OperationJournal.get`
unfoldable pub get_op : String → Journal → Result Operation
unfolding or_unknown
get_op id j = or_unknown id (find_op id j.ops)

-- `assert row is not None; return Operation.from_row(row)`
unfoldable pub read_back : Option Operation → Journal → Result (Operation × Journal)
read_back none j = err row_missing
read_back (some o) j = ok (o, j)

-- the UPDATE, the commit and the SELECT that close a call
unfoldable pub write_op : String → (Operation → Operation) → Journal → Result (Operation × Journal)
unfolding read_back
write_op id f j =
    let j' = record j { ops = update_op id f j.ops } in read_back (find_op id j'.ops) j'
