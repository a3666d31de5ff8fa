-- ===== src/Ctl/Commands.antt =====
-- The commands of cmd/faketimectl/cmds_controller.go, and the choice of a command by main.go.
pub mod Requests
use Prim.Native.String.{◌++◌ as str_append}
use epochd.Base.{
  ◌||◌, not, String, Bool, true, false, Option, none, some, List, [], ◌∷◌, if◌then◌else◌, str_eq,
  map,
}
use epochd.Base.Int.{ℤ, pos, ltb_ℤ}
use epochd.Clock.{Time, Duration, is_zero}
use epochd.Api.{ResolvedPod, ContainerStatusEntry, TimeshiftStatusResponse}
use epochd.Controller.Handlers.{Formats}
use epochd.Sdk.{
  SdkError, Outcome, done, failed, ClientTimeshift, is_not_found, is_conflict, Decoders, World,
  Client, create, list, get, update, advance, delete, timeshift_status, resolve,
}
use epochd.Ctl.{
  CliError, Action, not_found, conflict, request_failed, unknown_command, Output, line, row,
  status_row, usage, Reply, printed, acts, refused, Checked, fine, refuse, join, applied_text,
  print_timeshift,
}
use epochd.Ctl.Args.{create_args, update_args, advance_args, id_args, list_args, resolve_args}
use epochd.Ctl.Local.{inject_action, run_action, reset_action}

-- The error of a request on one id.
unfoldable pub id_error : String → String → SdkError → CliError
id_error cmd id e = if is_not_found e then not_found cmd id else request_failed cmd e

-- What a command makes of the outcome of its request.
abbrev pub report :
    {A W : Type 0}
    → (SdkError → CliError)
    → (A → List Output)
    → Outcome A × Client W
    → Reply × Client W
report error show (done a, st) = (printed (show a), st)
report error show (failed e, st) = (refused (error e), st)

-- The end of a command whose flags were read, or its error.
abbrev pub run_checked :
    {A W : Type 0} → Checked A → (A → Client W → Reply × Client W) → Client W → Reply × Client W
run_checked (fine a) k st = k a st
run_checked (refuse e) k st = (refused e, st)

abbrev pub act : {W : Type 0} → Checked Action → Client W → Reply × Client W
act a st = run_checked a (λ x st. (acts x, st)) st

module _ (f : Formats) where
  -- A row of cmdList
  unfoldable pub list_row : ClientTimeshift → Output
  unfolding applied_text
  list_row ts = row (
      ts.id
      ∷ ts.namespace
      ∷ f.format ts.time
      ∷ (if ts.frozen then "frozen" else "advancing")
      ∷ (if is_zero ts.expires_at then "-" else f.format ts.expires_at)
      ∷ applied_text ts.applied_to
      ∷ [])

  unfoldable pub print_list : List ClientTimeshift → List Output
  unfolding list_row
  print_list [] = line "no active timeshifts" ∷ []
  print_list (ts ∷ rest) =
      row ("ID" ∷ "NAMESPACE" ∷ "TARGET TIME" ∷ "MODE" ∷ "EXPIRES AT" ∷ "APPLIED TO" ∷ [])
      ∷ map list_row (ts ∷ rest)

-- printStatus
unfoldable pub print_status : TimeshiftStatusResponse → List Output
print_status r =
    line (str_append "timeshift " (str_append r.id (str_append "  namespace: " r.namespace)))
    ∷ line ""
    ∷ row ("POD" ∷ "CONTAINER" ∷ "GENERATION" ∷ "TARGET TIME" ∷ "PID" ∷ "ERROR" ∷ [])
    ∷ map status_row r.containers

-- The table of cmdResolve
unfoldable pub print_pods : List ResolvedPod → List Output
unfolding join
print_pods [] = line "no matching pods" ∷ []
print_pods (p ∷ rest) =
    row ("POD" ∷ "NAMESPACE" ∷ "NODE IP" ∷ "CONTAINERS" ∷ [])
    ∷ map (λ q. row (q.name ∷ q.namespace ∷ q.node_ip ∷ join q.containers ∷ [])) (p ∷ rest)

-- The tool runs with `env_url` for EPOCHD_URL; `dial` is what a client of a URL runs against.
module _ {W : Type 0} (parse_int : String → Option ℤ) (f : Formats) (env_url : String)
    (dial : String → World W) (decoders : Decoders) where
  unfoldable pub cmd_create : List String → Client W → Reply × Client W
  unfolding create_args print_timeshift
  cmd_create args = run_checked (create_args parse_int f env_url args) (λ a st.
      report (λ e. if is_conflict e then conflict "create" e else request_failed "create" e)
        (print_timeshift f "created")
        (create (dial a.url) decoders f a.namespace a.selector a.target a.ttl a.freeze st))

  unfoldable pub cmd_list : List String → Client W → Reply × Client W
  unfolding list_args print_list
  cmd_list args =
      run_checked (list_args parse_int f env_url args)
        (λ url st. report (request_failed "list") (print_list f) (list (dial url) decoders f st))

  unfoldable pub cmd_get : List String → Client W → Reply × Client W
  unfolding id_args print_timeshift
  cmd_get args = run_checked (id_args parse_int f env_url "get" args) (λ (url, id) st.
      report (id_error "get" id) (print_timeshift f "") (get (dial url) decoders f id st))

  unfoldable pub cmd_update : List String → Client W → Reply × Client W
  unfolding update_args print_timeshift
  cmd_update args = run_checked (update_args parse_int f env_url args) (λ a st.
      report (id_error "update" a.id) (print_timeshift f "updated")
        (update (dial a.url) decoders f a.id a.target a.freeze st))

  unfoldable pub cmd_advance : List String → Client W → Reply × Client W
  unfolding advance_args print_timeshift
  cmd_advance args = run_checked (advance_args parse_int f env_url args) (λ (url, id, delta) st.
      report (id_error "advance" id) (print_timeshift f "advanced")
        (advance (dial url) decoders f id delta st))

  unfoldable pub cmd_delete : List String → Client W → Reply × Client W
  unfolding id_args
  cmd_delete args = run_checked (id_args parse_int f env_url "delete" args) (λ (url, id) st.
      report (id_error "delete" id) (λ _. line (str_append "deleted timeshift " id) ∷ [])
        (delete (dial url) decoders f id st))

  unfoldable pub cmd_status : List String → Client W → Reply × Client W
  unfolding id_args print_status
  cmd_status args = run_checked (id_args parse_int f env_url "status" args) (λ (url, id) st.
      report (id_error "status" id) print_status (timeshift_status (dial url) decoders f id st))

  unfoldable pub cmd_resolve : List String → Client W → Reply × Client W
  unfolding resolve_args print_pods
  cmd_resolve args = run_checked (resolve_args parse_int f env_url args) (λ (url, ns, sel) st.
      report (request_failed "resolve") print_pods (resolve (dial url) decoders f ns sel st))

  -- The commands that are no local action, and the text for the others.
  unfoldable pub run_command : String → List String → Client W → Reply × Client W
  unfolding cmd_create cmd_list cmd_get cmd_update cmd_advance cmd_delete cmd_status cmd_resolve
  run_command name args st =
      if str_eq name "-h" || str_eq name "--help" || str_eq name "help"
      then (printed (usage ∷ []), st)
      else if str_eq name "create"
      then cmd_create args st
      else if str_eq name "list"
      then cmd_list args st
      else if str_eq name "get"
      then cmd_get args st
      else if str_eq name "update"
      then cmd_update args st
      else if str_eq name "advance"
      then cmd_advance args st
      else if str_eq name "delete"
      then cmd_delete args st
      else if str_eq name "status"
      then cmd_status args st
      else if str_eq name "resolve"
      then cmd_resolve args st
      else if str_eq name "inject"
      then act (inject_action parse_int f args) st
      else if str_eq name "reset"
      then act (reset_action parse_int args) st
      else if str_eq name "run"
      then act (run_action parse_int f args) st
      else (refused (unknown_command name), st)

  -- run
  unfoldable pub run : List String → Client W → Reply × Client W
  unfolding run_command
  run [] st = (printed (usage ∷ []), st)
  run (name ∷ args) st = run_command name args st
