-- ===== src/Ctl/Local.antt =====
-- The local commands of cmd/faketimectl, up to the action on a process: cmdInject and cmdReset of
-- cmds_inject.go, and cmdRun of cmds_run.go with its exit code.
use epochd.Base.{
  ℕ, ◌+◌, String, true, false, Option, none, some, List, [], ◌∷◌, if◌then◌else◌, str_eq,
}
use epochd.Base.Int.{ℤ, pos, eqb_ℤ, ltb_ℤ}
use epochd.Controller.Handlers.{Formats}
use epochd.Ctl.{
  Action, inject_at, reset_to_now, run_child, flag_error, required, command_required, bad_time,
  Checked, fine, refuse, ◌>>=◌, refuse_if, or_refuse,
}
use epochd.Ctl.Flags.{
  FlagSet, string_flag, bool_flag, int_flag, Values, parse, parsed, parse_error, text_flag,
  switch_flag, number_flag,
}

abbrev pub inject_flags : FlagSet
inject_flags = ("pid", int_flag) ∷ ("time", string_flag) ∷ ("freeze", bool_flag) ∷ []

abbrev pub reset_flags : FlagSet
reset_flags = ("pid", int_flag) ∷ []

abbrev pub run_flags : FlagSet
run_flags = ("time", string_flag) ∷ ("freeze", bool_flag) ∷ ("track", bool_flag) ∷ []

module _ (parse_int : String → Option ℤ) where
  -- fs.Parse, whose error a command returns as it is.
  unfoldable pub parse_args : FlagSet → List String → Checked (Values × List String)
  unfolding parse
  parse_args flags args = elim (parse parse_int flags false args []) [
    | parsed vs rest ↦ fine (vs, rest)
    | parse_error e ↦ refuse (flag_error e)
  ]

  module _ (f : Formats) where
    -- cmdInject
    unfoldable pub inject_action : List String → Checked Action
    unfolding parse_args text_flag switch_flag number_flag
    inject_action args = do
      (vs, rest) ← parse_args inject_flags args
      _ ← refuse_if (eqb_ℤ (number_flag "pid" vs) (pos 0)) (required "inject" "pid")
      _ ← refuse_if (str_eq (text_flag "time" vs) "") (required "inject" "time")
      target ← or_refuse (f.parse (text_flag "time" vs)) (bad_time "inject")
      fine (inject_at (number_flag "pid" vs) target (switch_flag "freeze" vs))

    -- cmdRun, up to the start of the command
    unfoldable pub run_action : List String → Checked Action
    unfolding parse_args text_flag switch_flag
    run_action args = do
      (vs, rest) ← parse_args run_flags args
      _ ← refuse_if (elim rest [ [] ↦ true | _ ∷ _ ↦ false ]) (command_required "run")
      _ ← refuse_if (str_eq (text_flag "time" vs) "") (required "run" "time")
      target ← or_refuse (f.parse (text_flag "time" vs)) (bad_time "run")
      fine (run_child rest target (switch_flag "freeze" vs) (switch_flag "track" vs))

  -- cmdReset
  unfoldable pub reset_action : List String → Checked Action
  unfolding parse_args number_flag
  reset_action args = do
    (vs, rest) ← parse_args reset_flags args
    _ ← refuse_if (eqb_ℤ (number_flag "pid" vs) (pos 0)) (required "reset" "pid")
    fine (reset_to_now (number_flag "pid" vs))

-- What cmd.Wait returns: no error, an ExitError with its code and the signal that ended the process, or another
-- error.
pub data WaitResult : Type 0 where
  exited_well : WaitResult
  exit_error : ℤ → Option ℕ → WaitResult
  wait_error : WaitResult

-- The exit code of cmdRun; `none` is the error of the wait.
unfoldable pub exit_code : WaitResult → Option ℤ
exit_code exited_well = some (pos 0)
exit_code (exit_error code signal) =
    if ltb_ℤ code (pos 0)
    then elim signal [ none ↦ some (pos 1) | some n ↦ some (pos (128 + n)) ]
    else some code
exit_code wait_error = none
