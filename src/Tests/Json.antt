-- ===== src/Tests/Json.antt =====
-- A small JSON: it prints dictionaries with sorted keys, as `json.dumps` does with `sort_keys=True`,
-- and reads back those whose values are texts and numbers. Texts have no quotes and no escapes.
use Prim.Native.Char.{Char, code}
use strongclaw.Prelude.{
  ℕ, ◌+◌, ◌-◌, ◌*◌, String, ◌<>◌, Bool, ◌&&◌, Option, some, eqb, leb, if◌then◌else◌,
}
use strongclaw.Prelude.Text.{show_nat}
use strongclaw.Value.{Value, str, obj, nat, Fields, end, field}
use strongclaw.Value.Sorted.{sort_keys}

abbrev pub print_fields : Fields → String
print_fields end = "}"
print_fields (field key (str s) end) = "\"" <> key <> "\":\"" <> s <> "\"}"
print_fields (field key (nat n) end) = "\"" <> key <> "\":" <> show_nat n <> "}"
print_fields (field key (str s) fs) = "\"" <> key <> "\":\"" <> s <> "\"," <> print_fields fs
print_fields (field key (nat n) fs) = "\"" <> key <> "\":" <> show_nat n <> "," <> print_fields fs
print_fields (field key v fs) = print_fields fs

abbrev pub print : Value → String
print (obj fs) = "{" <> print_fields fs
print (str s) = "\"" <> s <> "\""
print (nat n) = show_nat n
print v = "null"

abbrev pub dumps : Value → String
dumps v = print (sort_keys v)

-- what the reader is in
pub data Mode : Type 0 where
  between in_key after_key in_text in_number : Mode

pub record Reading : Type 0 where
  pub mode : Mode
  pub key : String
  pub text : String
  pub number : ℕ
  pub read : Fields

abbrev pub append_field : String → Value → Fields → Fields
append_field key v end = field key v end
append_field key v (field k w fs) = field k w (append_field key v fs)

abbrev pub is_quote : Char → Bool
is_quote c = eqb (code c) 34

abbrev pub is_digit : Char → Bool
is_digit c = leb 48 (code c) && leb (code c) 57

abbrev pub letter : Char → String
letter c = String.◌∷◌ c ""

abbrev pub enter : Mode → Reading → Reading
enter mode r = record r { mode = mode; text = ""; number = 0 }

abbrev pub keep : Value → Reading → Reading
keep v r = record {
  mode = between;
  key = "";
  text = "";
  number = 0;
  read = append_field r.key v r.read;
}

abbrev pub step : Mode → Char → Reading → Reading
step between c r = if is_quote c then enter in_key r else r
step in_key c r = if is_quote c then enter after_key r else record r { key = r.key <> letter c }
step after_key c r =
    if is_quote c
    then enter in_text r
    else if is_digit c
    then record r { mode = in_number; number = code c - 48 }
    else r
step in_text c r =
    if is_quote c then keep (str r.text) r else record r { text = r.text <> letter c }
step in_number c r =
    if is_digit c
    then record r { number = r.number * 10 + (code c - 48) }
    else keep (nat r.number) r

abbrev pub scan : String → Reading → Reading
scan String.[] r = r
scan (String.◌∷◌ c s) r = scan s (step r.mode c r)

abbrev pub loads : String → Option Value
loads s =
    some
      (obj (scan s (record { mode = between; key = ""; text = ""; number = 0; read = end })).read)
