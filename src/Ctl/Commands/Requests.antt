-- ===== src/Ctl/Commands/Requests.antt =====
-- The requests that a run of cmd/faketimectl makes of the controller.
use epochd.Base.{
  ◌≡◌, refl, ap, ◌∙◌, String, Bool, true, false, Option, some, List, [], ◌∷◌, if◌then◌else◌, str_eq,
  arith, ◌||◌,
}
use epochd.Base.Int.{ℤ}
use epochd.Controller.Handlers.{Formats}
use epochd.Sdk.{
  Request, create_request, list_request, get_request, update_request, delete_request,
  status_request, resolve_request, create_body, update_body, SdkError, Outcome, done, failed,
  Decoders, World, Client, do_request, is_conflict, create, list, get, update, advance, delete,
  timeshift_status, resolve,
}
use epochd.Sdk.Requests.{do_request-state, request_timeshift-state, and_then-state}
use epochd.Ctl.{
  Action, CliError, not_found, conflict, request_failed, Output, Reply, printed, acts, refused,
  Checked, fine, refuse,
}
use epochd.Ctl.Args.{create_args, update_args, advance_args, id_args, list_args, resolve_args}
use epochd.Ctl.Local.{inject_action, run_action, reset_action}
use epochd.Ctl.Commands.{
  id_error, report, run_checked, act, cmd_create, cmd_list, cmd_get, cmd_update, cmd_advance,
  cmd_delete, cmd_status, cmd_resolve, run_command, run,
}

-- The replies that a command makes once it has an answer: what it prints, and the errors of a request.
abbrev pub is_answer : Reply → Bool
is_answer (printed _) = true
is_answer (acts _) = false
is_answer (refused (not_found _ _)) = true
is_answer (refused (conflict _ _)) = true
is_answer (refused (request_failed _ _)) = true
is_answer (refused _) = false

-- One request was sent, and the reply is made of its answer.
pub record IsOneRequest {W : Type 0} (before : Client W) (r : Reply × Client W) : Type 0 where
  pub request : Request
  pub sent_it : r.1.asked ≡ request ∷ before.asked
  pub answered : is_answer r.0 ≡ true

-- Nothing was sent, or one request.
pub data IsFrugal {W : Type 0} (before : Client W) (r : Reply × Client W) : Type 0 where
  silent : r.1 ≡ before → IsFrugal before r
  asked : IsOneRequest before r → IsFrugal before r

pub report-state :
    {A W : Type 0} (error : SdkError → CliError) (show : A → List Output) (r : Outcome A × Client W)
    → (report error show r).1 ≡ r.1
report-state error show (done a, st) = refl
report-state error show (failed e, st) = refl

report-answer :
    {A W : Type 0} (error : SdkError → CliError) (show : A → List Output) (r : Outcome A × Client W)
    → ((e : SdkError) → is_answer (refused (error e)) ≡ true)
    → is_answer (report error show r).0 ≡ true
report-answer error show (done a, st) h = refl
report-answer error show (failed e, st) h = h e

report-IsFrugal :
    {A W : Type 0} (error : SdkError → CliError) (show : A → List Output) (st : Client W)
    (r : Outcome A × Client W) (req : Request)
    → ((e : SdkError) → is_answer (refused (error e)) ≡ true)
    → r.1.asked ≡ req ∷ st.asked
    → IsFrugal st (report error show r)
report-IsFrugal error show st r req h e = asked (record {
  request = req;
  sent_it = ap (λ c. c.asked) (report-state error show r) ∙ e;
  answered = report-answer error show r h;
})

run_checked-IsFrugal :
    {A W : Type 0} (c : Checked A) (k : A → Client W → Reply × Client W) (st : Client W)
    → ((a : A) → IsFrugal st (k a st))
    → IsFrugal st (run_checked c k st)
run_checked-IsFrugal (fine a) k st h = h a
run_checked-IsFrugal (refuse e) k st h = silent refl

act-IsFrugal : {W : Type 0} (c : Checked Action) (st : Client W) → IsFrugal st (act c st)
act-IsFrugal c st = run_checked-IsFrugal c (λ x s. (acts x, s)) st (λ a. silent refl)

id_error-answer : (cmd id : String) (e : SdkError) → is_answer (refused (id_error cmd id e)) ≡ true
unfolding id_error
id_error-answer cmd id e = ground arith

create_error-answer :
    (e : SdkError)
    → is_answer (refused (if is_conflict e then conflict "create" e else request_failed "create" e))
      ≡ true
create_error-answer e = ground arith

either-IsFrugal :
    {W : Type 0} (b : Bool) (st : Client W) (x y : Reply × Client W)
    → IsFrugal st x
    → IsFrugal st y
    → IsFrugal st (if b then x else y)
either-IsFrugal true st x y p q = p
either-IsFrugal false st x y p q = q

module _ {W : Type 0} (parse_int : String → Option ℤ) (f : Formats) (env_url : String)
    (dial : String → World W) (decoders : Decoders) (args : List String) (st : Client W) where
  cmd_create-IsFrugal : IsFrugal st (cmd_create parse_int f env_url dial decoders args st)
  unfolding cmd_create create
  cmd_create-IsFrugal = run_checked-IsFrugal (create_args parse_int f env_url args) _ st (λ a.
      report-IsFrugal _ _ st _
        (create_request (create_body f a.namespace a.selector a.target a.ttl a.freeze))
        create_error-answer
        (ap (λ c. c.asked) (request_timeshift-state (dial a.url) decoders f _ st)))

  cmd_list-IsFrugal : IsFrugal st (cmd_list parse_int f env_url dial decoders args st)
  unfolding cmd_list list
  cmd_list-IsFrugal = run_checked-IsFrugal (list_args parse_int f env_url args) _ st (λ url.
      report-IsFrugal _ _ st _ list_request (λ e. refl)
        (ap (λ c. c.asked)
          (and_then-state _
              (do_request (dial url) decoders f [] decoders.timeshifts list_request st)
            ∙ do_request-state (dial url) decoders f [] decoders.timeshifts list_request st)))

  cmd_get-IsFrugal : IsFrugal st (cmd_get parse_int f env_url dial decoders args st)
  unfolding cmd_get get
  cmd_get-IsFrugal =
      run_checked-IsFrugal (id_args parse_int f env_url "get" args) _ st (λ (url, id).
        report-IsFrugal _ _ st _ (get_request id) (id_error-answer "get" id)
          (ap (λ c. c.asked) (request_timeshift-state (dial url) decoders f _ st)))

  cmd_update-IsFrugal : IsFrugal st (cmd_update parse_int f env_url dial decoders args st)
  unfolding cmd_update update
  cmd_update-IsFrugal = run_checked-IsFrugal (update_args parse_int f env_url args) _ st (λ a.
      report-IsFrugal _ _ st _ (update_request a.id (update_body f a.target a.freeze))
        (id_error-answer "update" a.id)
        (ap (λ c. c.asked) (request_timeshift-state (dial a.url) decoders f _ st)))

  cmd_advance-IsFrugal : IsFrugal st (cmd_advance parse_int f env_url dial decoders args st)
  unfolding cmd_advance advance
  cmd_advance-IsFrugal =
      run_checked-IsFrugal (advance_args parse_int f env_url args) _ st (λ (url, id, delta).
        report-IsFrugal _ _ st _ _ (id_error-answer "advance" id)
          (ap (λ c. c.asked) (request_timeshift-state (dial url) decoders f _ st)))

  cmd_delete-IsFrugal : IsFrugal st (cmd_delete parse_int f env_url dial decoders args st)
  unfolding cmd_delete delete
  cmd_delete-IsFrugal =
      run_checked-IsFrugal (id_args parse_int f env_url "delete" args) _ st (λ (url, id).
        report-IsFrugal _ _ st _ (delete_request id) (id_error-answer "delete" id) (
          ap (λ c. c.asked)
            (do_request-state (dial url) decoders f tt (λ _. some tt) (delete_request id) st)))

  cmd_status-IsFrugal : IsFrugal st (cmd_status parse_int f env_url dial decoders args st)
  unfolding cmd_status timeshift_status
  cmd_status-IsFrugal =
      run_checked-IsFrugal (id_args parse_int f env_url "status" args) _ st (λ (url, id).
        report-IsFrugal _ _ st _ (status_request id) (id_error-answer "status" id)
          (ap (λ c. c.asked) (do_request-state (dial url) decoders f _ _ _ st)))

  cmd_resolve-IsFrugal : IsFrugal st (cmd_resolve parse_int f env_url dial decoders args st)
  unfolding cmd_resolve resolve
  cmd_resolve-IsFrugal =
      run_checked-IsFrugal (resolve_args parse_int f env_url args) _ st (λ (url, ns, sel).
        report-IsFrugal _ _ st _ (resolve_request ns sel) (λ e. refl)
          (ap (λ c. c.asked) (do_request-state (dial url) decoders f _ _ _ st)))

  run_command-IsFrugal :
      (name : String) → IsFrugal st (run_command parse_int f env_url dial decoders name args st)
  unfolding run_command
  run_command-IsFrugal name =
      either-IsFrugal (str_eq name "-h" || str_eq name "--help" || str_eq name "help") st _ _
        (silent refl)
        (either-IsFrugal (str_eq name "create") st _ _ cmd_create-IsFrugal (
          either-IsFrugal (str_eq name "list") st _ _ cmd_list-IsFrugal (
            either-IsFrugal (str_eq name "get") st _ _ cmd_get-IsFrugal (
              either-IsFrugal (str_eq name "update") st _ _ cmd_update-IsFrugal (
                either-IsFrugal (str_eq name "advance") st _ _ cmd_advance-IsFrugal (
                  either-IsFrugal (str_eq name "delete") st _ _ cmd_delete-IsFrugal (
                    either-IsFrugal (str_eq name "status") st _ _ cmd_status-IsFrugal (
                      either-IsFrugal (str_eq name "resolve") st _ _ cmd_resolve-IsFrugal (
                        either-IsFrugal (str_eq name "inject") st _ _
                          (act-IsFrugal (inject_action parse_int f args) st)
                          (either-IsFrugal (str_eq name "reset") st _ _
                            (act-IsFrugal (reset_action parse_int args) st)
                            (either-IsFrugal (str_eq name "run") st _ _
                              (act-IsFrugal (run_action parse_int f args) st)
                              (silent refl))))))))))))

-- Whatever the arguments, a run of the tool leaves the client as it was or sends one request more than
-- before; where it sends one, it prints or returns an error of that request, so an error of the flags or of
-- their checks comes before any request.
pub run-IsFrugal :
    {W : Type 0} (parse_int : String → Option ℤ) (f : Formats) (env_url : String)
    (dial : String → World W) (decoders : Decoders) (args : List String) (st : Client W)
    → IsFrugal st (run parse_int f env_url dial decoders args st)
unfolding run
run-IsFrugal parse_int f env_url dial decoders [] st = silent refl
run-IsFrugal parse_int f env_url dial decoders (name ∷ args) st =
    run_command-IsFrugal parse_int f env_url dial decoders args st name
