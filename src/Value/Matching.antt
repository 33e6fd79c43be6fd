-- ===== src/Value/Matching.antt =====
-- `match_mapping` of src/clawops/common.py, with Python's equality and `str` of dynamic values.
use strongclaw.Prelude.{
  ℕ, suc, String, ◌<>◌, Bool, true, false, ◌&&◌, ◌||◌, none, some, ◌==◌, eqb, if◌then◌else◌,
}
use Prim.Native.Char.{code}
use strongclaw.Prelude.Text.{show_nat}
use strongclaw.Value.{
  Value, null, bool, nat, neg, str, arr, obj, Items, nil, cons, Fields, end, field,
}
use strongclaw.Value.Access.{get}
use strongclaw.Runtime.{Runtime}

-- len(d)
unfoldable pub count_fields : Fields → ℕ
count_fields end = 0
count_fields (field k v fs) = suc (count_fields fs)

-- True and False are the integers 1 and 0.
unfoldable pub bool_number : Bool → ℕ
bool_number true = 1
bool_number false = 0

-- a == b of a number or a truth value
unfoldable pub number_eq : ℕ → Value → Bool
unfolding bool_number
number_eq n (nat m) = eqb n m
number_eq n (bool b) = eqb n (bool_number b)
number_eq n other = false

-- a == b; dictionaries are equal if they have as many keys and each key of one has an equal value in
-- the other.
unfoldable mutual
  unfolding number_eq bool_number count_fields

  pub value_eq : Value → Value → Bool
  value_eq null null = true
  value_eq (bool b) other = number_eq (bool_number b) other
  value_eq (nat n) other = number_eq n other
  value_eq (neg n) (neg m) = eqb n m
  value_eq (str s) (str t) = s == t
  value_eq (arr xs) (arr ys) = items_eq xs ys
  value_eq (obj fs) (obj gs) = eqb (count_fields fs) (count_fields gs) && fields_eq fs gs
  value_eq a b = false

  pub items_eq : Items → Items → Bool
  items_eq nil nil = true
  items_eq (cons x xs) (cons y ys) = value_eq x y && items_eq xs ys
  items_eq xs ys = false

  pub fields_eq : Fields → Fields → Bool
  fields_eq end gs = true
  fields_eq (field k v fs) gs = elim (get k gs) [
    | none ↦ false
    | some w ↦ value_eq v w && fields_eq fs gs
  ]

-- value in items
unfoldable pub in_items : Value → Items → Bool
in_items v nil = false
in_items v (cons x xs) = value_eq v x || in_items v xs

-- any(ch in s for ch in "*?[]")
unfoldable pub has_wildcard : String → Bool
has_wildcard String.[] = false
has_wildcard (String.◌∷◌ c s) =
    eqb (code c) b'*'
    || eqb (code c) b'?'
    || eqb (code c) b'['
    || eqb (code c) b']'
    || has_wildcard s

module _ (rt : Runtime) where
  -- str(value)
  unfoldable pub to_text : Value → String
  to_text null = "None"
  to_text (bool true) = "True"
  to_text (bool false) = "False"
  to_text (nat n) = show_nat n
  to_text (neg n) = "-" <> show_nat (suc n)
  to_text (str s) = s
  to_text (arr xs) = rt.repr (arr xs)
  to_text (obj fs) = rt.repr (obj fs)

  -- an expected text, with its wildcards
  unfoldable pub match_text : String → Value → Bool
  unfolding to_text has_wildcard
  match_text s actual =
      if has_wildcard s then rt.fnmatch (to_text actual) s else value_eq actual (str s)

  unfoldable mutual
    unfolding match_text in_items

    -- one key of the rule against the value of that key in the payload
    pub match_value : Value → Value → Bool
    match_value (obj rule) (obj payload) = match_mapping rule payload
    match_value (obj rule) actual = false
    match_value (arr xs) actual = in_items actual xs
    match_value (str s) actual = match_text s actual
    match_value null actual = value_eq actual null
    match_value (bool b) actual = value_eq actual (bool b)
    match_value (nat n) actual = value_eq actual (nat n)
    match_value (neg n) actual = value_eq actual (neg n)

    pub match_mapping : Fields → Fields → Bool
    match_mapping end payload = true
    match_mapping (field key expected rule) payload = elim (get key payload) [
      | none ↦ false
      | some actual ↦ match_value expected actual && match_mapping rule payload
    ]
