-- ===== src/Ctl/Flags/Rendered.antt =====
-- The parse of flags that are written as `--name=value` or `--name`, as cmd/faketimectl documents them.
use Prim.Native.Char.{Char}
use Prim.Native.String.{◌++◌ as str_append, [] as empty, ◌∷◌ as chars}
use text.Mathlib.TextLemmas.{nil-append, cons-append}
use epochd.Base.{
  ◌≡◌, refl, ap, ◌∙◌, String, Bool, true, false, Option, none, some, List, [], ◌∷◌, ◌++◌,
  if◌then◌else◌, ◌||◌, map, All, arith,
}
use epochd.Base.Int.{ℤ}
use epochd.Controller.Registry.{lookup, insert}
use epochd.Ctl.Flags.{
  string_flag, bool_flag, text_value, switch_value, FlagSet, Values, operand, flag_token, is_dash,
  is_equals, split_value, name_token, long_token, token, parse_bool, set_value, take_flag, parsed,
  parse,
}

abbrev pub has_equals : String → Bool
has_equals empty = false
has_equals (chars c s) = is_equals c || has_equals s

-- A name that the parse takes as it is: not empty, with no `=` in it and no `-` in front.
abbrev pub is_name : String → Bool
is_name empty = false
is_name (chars c s) =
    if is_dash c then false else (if is_equals c || has_equals s then false else true)

-- A flag on the command line: with a value, or a switch that is turned on.
pub data Setting : Type 0 where
  with_text : String → String → Setting
  turned_on : String → Setting

abbrev pub render : Setting → String
render (with_text name value) = str_append "--" (str_append name (str_append "=" value))
render (turned_on name) = str_append "--" name

abbrev pub set_by : Setting → Values → Values
set_by (with_text name value) vs = insert name (text_value value) vs
set_by (turned_on name) vs = insert name (switch_value true) vs

abbrev pub set_all : List Setting → Values → Values
set_all [] vs = vs
set_all (s ∷ ss) vs = set_all ss (set_by s vs)

-- The flag is declared, and of the kind that the setting writes.
abbrev pub IsDeclared : FlagSet → Setting → Type 0
IsDeclared flags (with_text name _) = (is_name name ≡ true) × (lookup name flags ≡ some string_flag)
IsDeclared flags (turned_on name) = (is_name name ≡ true) × (lookup name flags ≡ some bool_flag)

-- The arguments that no flag stands before.
abbrev pub IsOperands : List String → Type 0
IsOperands [] = Unit
IsOperands (s ∷ _) = token s ≡ operand

equals-append : (s : String) → str_append "=" s ≡ chars "=" s
equals-append s = cons-append "=" "" s ∙ ap (chars "=") (nil-append s)

dashes-append : (s : String) → str_append "--" s ≡ chars "-" (chars "-" s)
dashes-append s =
    cons-append "-" "-" s ∙ ap (chars "-") (cons-append "-" "" s ∙ ap (chars "-") (nil-append s))

split_value-equals :
    (name value : String)
    → has_equals name ≡ false
    → split_value (str_append name (str_append "=" value)) ≡ (name, some value)
unfolding split_value
split_value-equals empty value h = ap split_value (nil-append _ ∙ equals-append value)
split_value-equals (chars c name) value h =
    ap split_value (cons-append c name _) ∙ ground (arith, split_value-equals name value)

split_value_plain : (name : String) → has_equals name ≡ false → split_value name ≡ (name, none)
unfolding split_value
split_value_plain empty h = refl
split_value_plain (chars c name) h = ground (arith, split_value_plain name)

-- A name, of its first character and the rest.
IsName : Char → String → Type 0
IsName c name = (is_dash c ≡ false) × (is_equals c ≡ false) × (has_equals name ≡ false)

is_name-IsName : (c : Char) (name : String) → is_name (chars c name) ≡ true → IsName c name
unfolding IsName
is_name-IsName c name h = ground arith

token-equals :
    (name value : String)
    → is_name name ≡ true
    → token (render (with_text name value)) ≡ flag_token name (some value)
unfolding token long_token name_token IsName
token-equals empty value h = ground arith
token-equals (chars c name) value h =
    let (dash, equals, plain) = is_name-IsName c name h in
    ap token (dashes-append _ ∙ ap (λ s. chars "-" (chars "-" s)) (cons-append c name _))
    ∙ rw (dash, equals, split_value-equals name value plain, name_token) refl

token_plain :
    (name : String) → is_name name ≡ true → token (render (turned_on name)) ≡ flag_token name none
unfolding token long_token name_token IsName
token_plain empty h = ground arith
token_plain (chars c name) h =
    let (dash, equals, plain) = is_name-IsName c name h in
    ap token (dashes-append (chars c name))
    ∙ rw (dash, equals, split_value_plain name plain, name_token) refl

module _ (parse_int : String → Option ℤ) (flags : FlagSet) where
  parse-render :
      (s : Setting) (args : List String) (vs : Values)
      → IsDeclared flags s
      → parse parse_int flags false (render s ∷ args) vs
        ≡ parse parse_int flags false args (set_by s vs)
  unfolding parse take_flag set_value parse_bool
  parse-render (with_text name value) args vs (named, declared) =
      rw (token-equals name value named, declared, parse, take_flag) refl
  parse-render (turned_on name) args vs (named, declared) =
      rw (token_plain name named, declared, parse, take_flag) refl

  parse-operands :
      (args : List String) (vs : Values)
      → IsOperands args
      → parse parse_int flags false args vs ≡ parsed vs args
  unfolding parse
  parse-operands [] vs h = refl
  parse-operands (s ∷ args) vs h = rw (h, parse) refl

  -- Flags that are declared, written as `--name=value` or, for a switch, as `--name`, with arguments after
  -- them of which the first, if any, is no flag, are read back: the parse sets each to its value,
  -- in order, and leaves those arguments.
  pub parse-map-render :
      (settings : List Setting) (args : List String) (vs : Values)
      → All (IsDeclared flags) settings
      → IsOperands args
      → parse parse_int flags false (map render settings ++ args) vs
        ≡ parsed (set_all settings vs) args
  parse-map-render [] args vs h o = parse-operands args vs o
  parse-map-render (s ∷ ss) args vs (h, hs) o =
      parse-render s (map render ss ++ args) vs h ∙ parse-map-render ss args (set_by s vs) hs o
