-- ===== src/Orchestration/Tokens.antt =====
-- `_slugify`, `_validate_token` and `_stable_descriptor_id` of src/clawops/orchestration.py.
pub mod Valid
use Prim.Native.Char.{Char, code}
use strongclaw.Prelude.{
  ℕ, String, ◌<>◌, Bool, true, false, ◌&&◌, ◌||◌, not, leb, eqb, if◌then◌else◌,
}
use strongclaw.Prelude.Text.{strip, is_nonempty, take_text}
use strongclaw.Runtime.{Runtime}
use strongclaw.Result.{Result, ok, empty_token, bad_token, require, ◌>>◌}

-- every character of a text is in a class
unfoldable pub every : (ℕ → Bool) → String → Bool
every p String.[] = true
every p (String.◌∷◌ c s) = p (code c) && every p s

-- [A-Za-z0-9._-]
unfoldable pub is_token_char : ℕ → Bool
is_token_char c =
    (leb b'A' c && leb c b'Z')
    || (leb b'a' c && leb c b'z')
    || (leb b'0' c && leb c b'9')
    || eqb c b'.'
    || eqb c b'_'
    || eqb c b'-'

-- [A-Za-z0-9._-], or [A-Za-z0-9._:-] where a colon is allowed
unfoldable pub in_class : Bool → ℕ → Bool
in_class allow_colon c = is_token_char c || (allow_colon && eqb c b':')

-- `re.fullmatch` of one or more characters of the class
unfoldable pub fullmatch : Bool → String → Bool
unfolding every in_class
fullmatch allow_colon s = is_nonempty s && every (in_class allow_colon) s

-- `_validate_token`
unfoldable pub validate_token_in : Bool → String → String → Result String
validate_token_in allow_colon name value = do
  require (is_nonempty (strip value)) (empty_token name)
  require (fullmatch allow_colon value) (bad_token name value)
  ok value

-- `_validate_token` with the default of its argument
unfoldable pub validate_token : String → String → Result String
unfolding validate_token_in
validate_token name value = validate_token_in false name value

-- `re.sub` of each run of other characters by one dash; the flag says that a run has begun
unfoldable pub dash_runs : Bool → String → String
dash_runs run String.[] = ""
dash_runs run (String.◌∷◌ c s) =
    let rest = dash_runs (not (is_token_char (code c))) s in
    if is_token_char (code c) then String.◌∷◌ c rest else if run then rest else String.◌∷◌ "-" rest

-- s.strip("-"), from the left and from the right
unfoldable pub lstrip_dashes : String → String
lstrip_dashes String.[] = ""
lstrip_dashes (String.◌∷◌ c s) =
    let rest = lstrip_dashes s in if eqb (code c) b'-' then rest else String.◌∷◌ c s

unfoldable pub rstrip_dashes : String → String
rstrip_dashes String.[] = ""
rstrip_dashes (String.◌∷◌ c s) = elim (rstrip_dashes s) [
  | String.[] ↦ if eqb (code c) b'-' then "" else String.◌∷◌ c ""
  | String.◌∷◌ d t ↦ String.◌∷◌ c (String.◌∷◌ d t)
]

-- the letter at the place of `c` in the first text, from the second
unfoldable pub translate : String → String → Char → Char
translate String.[] to c = c
translate (String.◌∷◌ u from) String.[] c = c
translate (String.◌∷◌ u from) (String.◌∷◌ l to) c =
    let rest = translate from to c in if eqb (code c) (code u) then l else rest

abbrev pub upper_letters : String
upper_letters = "ABCDEFGHIJKLMNOPQRSTUVWXYZ"

abbrev pub lower_letters : String
lower_letters = "abcdefghijklmnopqrstuvwxyz"

-- s.lower() of an ASCII text
unfoldable pub lower : String → String
unfolding translate
lower String.[] = ""
lower (String.◌∷◌ c s) = String.◌∷◌ (translate upper_letters lower_letters c) (lower s)

-- text or "scope"
unfoldable pub or_scope : String → String
or_scope s = if is_nonempty s then s else "scope"

-- `_slugify`
unfoldable pub slugify : String → String
unfolding is_token_char dash_runs lstrip_dashes rstrip_dashes lower or_scope
slugify value = or_scope (lower (rstrip_dashes (lstrip_dashes (dash_runs false value))))

module _ (rt : Runtime) where
  -- `_stable_descriptor_id`
  unfoldable pub stable_descriptor_id : String → String → String
  unfolding slugify
  stable_descriptor_id prefix seed = slugify prefix <> "-" <> take_text 12 (rt.sha256_hex seed)
