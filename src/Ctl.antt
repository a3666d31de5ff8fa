-- ===== src/Ctl.antt =====
-- cmd/faketimectl: the command line tool. Flags are parsed as the standard library's `flag` does; the
-- commands of the controller go through the client of pkg/sdk.
pub mod Flags
pub mod Local
pub mod Args
pub mod Commands
pub mod Documented
pub mod Service
pub mod Watch
use Prim.Native.String.{◌++◌ as str_append}
use epochd.Base.{
  String, Bool, true, false, Option, none, some, List, [], ◌∷◌, ◌++◌, if◌then◌else◌, str_eq,
}
use epochd.Base.Int.{ℤ}
use epochd.Clock.{Time, is_zero}
use epochd.Api.{ResolvedPod, ContainerStatusEntry}
use epochd.Controller.Handlers.{Formats}
use epochd.Sdk.{SdkError, ClientTimeshift}

-- The errors of flag.FlagSet.Parse.
pub data FlagError : Type 0 where
  bad_syntax : String → FlagError
  undefined : String → FlagError
  help : FlagError
  needs_argument : String → FlagError
  invalid_value : String → String → FlagError

-- The errors that the commands return. Those of a command carry its name.
pub data CliError : Type 0 where
  flag_error : FlagError → CliError
  required : String → String → CliError
  id_required command_required bad_time bad_duration : String → CliError
  bad_ttl url_required : CliError
  not_found : String → String → CliError
  conflict request_failed : String → SdkError → CliError
  unknown_command : String → CliError

-- An action on a process of this machine, which the local commands take once their flags are read.
pub data Action : Type 0 where
  inject_at : ℤ → Time → Bool → Action
  reset_to_now : ℤ → Action
  run_child : List String → Time → Bool → Bool → Action

-- What is written to standard output: a line, a row of a table, which a tabwriter aligns, or the
-- text of the usage.
pub data Output : Type 0 where
  line : String → Output
  row : List String → Output
  status_row : ContainerStatusEntry → Output
  usage : Output

pub data Reply : Type 0 where
  printed : List Output → Reply
  acts : Action → Reply
  refused : CliError → Reply

-- A value, or the error that a command returns at once.
pub data Checked (A : Type 0) : Type 0 where
  fine : A → Checked A
  refuse : CliError → Checked A

infixl 55 ◌>>=◌
abbrev pub ◌>>=◌ : {A B : Type 0} → Checked A → (A → Checked B) → Checked B
fine a >>= k = k a
refuse e >>= k = refuse e

-- The guards of the commands, `if bad { return fmt.Errorf(...) }`.
abbrev pub refuse_if : Bool → CliError → Checked Unit
refuse_if bad e = if bad then refuse e else fine tt

-- The parse of an option, with the error where it fails.
abbrev pub or_refuse : {A : Type 0} → Option A → CliError → Checked A
or_refuse none e = refuse e
or_refuse (some a) e = fine a

-- strings.Join(parts, ", ")
unfoldable pub join : List String → String
join [] = ""
join (s ∷ []) = s
join (s ∷ t ∷ rest) = str_append s (str_append ", " (join (t ∷ rest)))

-- The list of containers, "-" where it is empty.
unfoldable pub applied_text : List String → String
unfolding join
applied_text names = if str_eq (join names) "" then "-" else join names

-- printTimeshift
unfoldable pub print_timeshift : Formats → String → ClientTimeshift → List Output
unfolding applied_text
print_timeshift f prefix ts =
    line (
        if str_eq prefix ""
        then str_append "timeshift " ts.id
        else str_append prefix (str_append " timeshift " ts.id))
      ∷ line (str_append "  namespace:  " ts.namespace)
      ∷ line (str_append "  time:       " (f.format ts.time))
      ∷ (if ts.frozen then line "  frozen:     yes" ∷ [] else [])
    ++ (if is_zero ts.expires_at
        then []
        else line (str_append "  expires at: " (f.format ts.expires_at)) ∷ [])
    ++ line (str_append "  applied to: " (applied_text ts.applied_to)) ∷ []
