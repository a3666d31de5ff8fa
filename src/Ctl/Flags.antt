-- ===== src/Ctl/Flags.antt =====
-- The parse of flags that cmd/faketimectl makes with the standard library's flag.FlagSet.
pub mod Rendered
use Prim.Native.Nat.{ℕ}
use Prim.Native.Char.{Char, code}
use Prim.Native.String.{[] as empty, ◌∷◌ as chars}
use epochd.Base.{
  String, Bool, true, false, Option, none, some, List, [], ◌∷◌, if◌then◌else◌, ◌||◌, str_eq, ◌==◌,
}
use epochd.Base.Int.{ℤ, pos}
use epochd.Controller.Registry.{lookup, insert}
use epochd.Ctl.{FlagError, bad_syntax, undefined, help, needs_argument, invalid_value}

-- A flag declared by fs.String, fs.Bool or fs.Int.
pub data Kind : Type 0 where
  string_flag bool_flag int_flag : Kind

pub data Value : Type 0 where
  text_value : String → Value
  switch_value : Bool → Value
  number_value : ℤ → Value

abbrev pub FlagSet : Type 0
FlagSet = List (String × Kind)

-- The flags that were set.
abbrev pub Values : Type 0
Values = List (String × Value)

-- What one argument is: no flag, the terminator `--`, a bad flag, or a flag with the value after
-- its `=`.
pub data Token : Type 0 where
  operand terminator bad_token : Token
  flag_token : String → Option String → Token

abbrev pub is_dash : Char → Bool
is_dash c = code c == 45

abbrev pub is_equals : Char → Bool
is_equals c = code c == 61

-- A name and its value, split at the first `=`.
unfoldable pub split_value : String → String × Option String
split_value empty = ("", none)
split_value (chars c s) =
    let (name, value) = split_value s in if is_equals c then ("", some s) else (chars c name, value)

unfoldable pub name_token : String → Token
unfolding split_value
name_token empty = bad_token
name_token (chars c s) =
    if is_dash c || is_equals c
    then bad_token
    else (let (name, value) = split_value s in flag_token (chars c name) value)

unfoldable pub long_token : String → Token
unfolding name_token
long_token empty = terminator
long_token (chars c s) = name_token (chars c s)

unfoldable pub token : String → Token
unfolding long_token name_token
token empty = operand
token (chars c empty) = operand
token (chars c (chars d s)) =
    if is_dash c then (if is_dash d then long_token s else name_token (chars d s)) else operand

-- strconv.ParseBool
unfoldable pub parse_bool : String → Option Bool
parse_bool s =
    if str_eq s "1"
      || str_eq s "t"
      || str_eq s "T"
      || str_eq s "TRUE"
      || str_eq s "true"
      || str_eq s "True"
    then some true
    else if str_eq s "0"
        || str_eq s "f"
        || str_eq s "F"
        || str_eq s "FALSE"
        || str_eq s "false"
        || str_eq s "False"
    then some false
    else none

-- What parseOne does with a flag: an error, or the flags set, with the arguments it took.
pub data Taken : Type 0 where
  wrong : FlagError → Taken
  one : Values → Taken
  two : Values → Taken

-- The flags set and the arguments left, or the error.
pub data Parse : Type 0 where
  parsed : Values → List String → Parse
  parse_error : FlagError → Parse

module _ (parse_int : String → Option ℤ) where
  -- Value.Set
  unfoldable pub set_value : Kind → String → Option Value
  unfolding parse_bool
  set_value string_flag s = some (text_value s)
  set_value bool_flag s = elim (parse_bool s) [ none ↦ none | some b ↦ some (switch_value b) ]
  set_value int_flag s = elim (parse_int s) [ none ↦ none | some n ↦ some (number_value n) ]

  abbrev assign : (Values → Taken) → Kind → String → String → Values → Taken
  assign next kind name s vs = elim (set_value kind s) [
    | none ↦ wrong (invalid_value name s)
    | some v ↦ next (insert name v vs)
  ]

  -- The value of a flag that is no switch: after its `=`, or the next argument.
  abbrev valued : Kind → String → Option String → List String → Values → Taken
  valued kind name (some s) args vs = assign one kind name s vs
  valued kind name none [] vs = wrong (needs_argument name)
  valued kind name none (a ∷ args) vs = assign two kind name a vs

  unfoldable pub take_flag : FlagSet → String → Option String → List String → Values → Taken
  unfolding set_value
  take_flag flags name value args vs = elim (lookup name flags) [
    | none ↦ wrong (if str_eq name "help" || str_eq name "h" then help else undefined name)
    | some bool_flag ↦ elim value [
      | none ↦ assign one bool_flag name "true" vs
      | some s ↦ assign one bool_flag name s vs
    ]
    | some kind ↦ valued kind name value args vs
  ]

  -- Parse: the flags set and the arguments left. `taken` says that the first argument was the value
  -- of the flag before it.
  unfoldable pub parse : FlagSet → Bool → List String → Values → Parse
  unfolding token take_flag
  parse flags taken [] vs = parsed vs []
  parse flags true (s ∷ args) vs = parse flags false args vs
  parse flags false (s ∷ args) vs = elim (token s) [
    | operand ↦ parsed vs (s ∷ args)
    | terminator ↦ parsed vs args
    | bad_token ↦ parse_error (bad_syntax s)
    | flag_token name value ↦ elim (take_flag flags name value args vs) [
      | wrong e ↦ parse_error e
      | one vs' ↦ parse flags false args vs'
      | two vs' ↦ parse flags true args vs'
    ]
  ]

-- The value of a flag, its default where it was not set.
unfoldable pub text_flag : String → Values → String
text_flag name vs = elim (lookup name vs) [ some (text_value s) ↦ s | _ ↦ "" ]

unfoldable pub switch_flag : String → Values → Bool
switch_flag name vs = elim (lookup name vs) [ some (switch_value b) ↦ b | _ ↦ false ]

unfoldable pub number_flag : String → Values → ℤ
number_flag name vs = elim (lookup name vs) [ some (number_value n) ↦ n | _ ↦ pos 0 ]
