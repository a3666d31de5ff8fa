-- ===== src/Controller/Handlers.antt =====
-- cmd/controller/handlers.go: the HTTP handlers over the operations of the controller. The decoding of
-- JSON happens outside: a body that does not decode is `none`.
pub mod Status
pub mod Outcome
use Prim.Native.String.{◌++◌ as str_append}
use epochd.Base.{
  ℕ, String, Bool, true, false, not, ◌&&◌, Option, none, some, List, [], ◌∷◌, map, ◌⊎◌, inl, inr,
  if◌then◌else◌, str_eq,
}
use epochd.Base.Int.{ℤ, pos, ltb_ℤ}
use epochd.Clock.{Time, Duration, is_zero, before}
use epochd.Api.{
  CreateTimeshiftRequest, UpdateTimeshiftRequest, TimeshiftResponse, ResolvedPod, HandleStatus,
  ContainerStatusEntry, TimeshiftStatusResponse, Response, timeshift_body, list_body, status_body,
  resolve_body, error_body, no_body,
}
use epochd.Controller.{
  ContainerHandle, Timeshift, ContainerStatus, Pod, Agents, Controller, Timeshifts, effective_time,
  Error, not_found_error, conflict_error, Result, ok, err,
}
use epochd.Controller.Registry.{lookup}
use epochd.Controller.Create.{create_timeshift}
use epochd.Controller.Update.{update_timeshift, advance_timeshift}
use epochd.Controller.Remove.{delete_timeshift}

-- What the handlers use of packages time and sort: the RFC 3339 form of an instant in UTC, the two
-- parsers, the text of a duration, sort.Strings, sort.Slice at two types, and the order of texts.
pub record Formats : Type 0 where
  pub format : Time → String
  pub parse : String → Option Time
  pub parse_duration : String → Option Duration
  pub duration_text : Duration → String
  pub sort_strings : List String → List String
  pub sort_timeshifts : (Timeshift → Timeshift → Bool) → List Timeshift → List Timeshift
  pub sort_pods : (ResolvedPod → ResolvedPod → Bool) → List ResolvedPod → List ResolvedPod
  pub less : String → String → Bool

-- writeError
abbrev pub failure : ℕ → Response
failure code = record { code = code; body = error_body }

-- The status code of an operation's error, through isNotFound and isConflict.
unfoldable pub create_code : Error → ℕ
create_code not_found_error = 404
create_code (conflict_error _) = 409
create_code _ = 500

-- The same in the handlers that know no conflict.
unfoldable pub error_code : Error → ℕ
error_code not_found_error = 404
error_code _ = 500

-- getTimeshift
unfoldable pub get_timeshift : String → Controller → Result Timeshift
get_timeshift id c = elim (lookup id c.timeshifts) [ none ↦ err not_found_error | some s ↦ ok s ]

module _ (f : Formats) where
  -- appliedTo
  unfoldable pub applied_to : Timeshift → List String
  applied_to s = f.sort_strings (map (λ h. str_append h.pod (str_append "/" h.container)) s.handles)

  -- toResponse, at the reading `now` of the clock
  unfoldable pub to_response : Time → Timeshift → TimeshiftResponse
  unfolding applied_to effective_time
  to_response now s = record {
    id = s.id;
    namespace = s.namespace;
    time = f.format (effective_time s now);
    frozen = s.frozen;
    expires_at = if is_zero s.expires_at then "" else f.format s.expires_at;
    applied_to = applied_to s;
  }

  -- listTimeshifts
  unfoldable pub list_timeshifts : Time → Controller → List TimeshiftResponse
  unfolding to_response
  list_timeshifts now c =
      map (to_response now)
        (f.sort_timeshifts (λ s t. before s.created_at t.created_at) (map (λ e. e.1) c.timeshifts))

  -- handleListTimeshifts
  unfoldable pub handle_list_timeshifts : Time → Controller → Response
  unfolding list_timeshifts
  handle_list_timeshifts now c = record { code = 200; body = list_body (list_timeshifts now c) }

  -- The end of a handler that answers with a timeshift or an error.
  abbrev pub answer : ℕ → (Error → ℕ) → Time → Result Timeshift × Controller → Response × Controller
  answer code errors shown (ok s, c) =
      (record { code = code; body = timeshift_body (to_response shown s) }, c)
  answer code errors shown (err e, c) = (failure (errors e), c)

  -- The TTL of a create: absent, or a positive duration.
  unfoldable pub parse_ttl : String → Option Duration
  parse_ttl text = if str_eq text "" then some (pos 0) else elim (f.parse_duration text) [
    | none ↦ none
    | some d ↦ if ltb_ℤ (pos 0) d then some d else none
  ]

  -- handleGetTimeshift
  unfoldable pub handle_get_timeshift : Time → String → Controller → Response
  unfolding get_timeshift
  handle_get_timeshift shown id c = (answer 200 error_code shown (get_timeshift id c, c)).0

  module _ (agents : Agents) where
    -- handleCreateTimeshift: `now` is the reading of the clock in createTimeshift, `shown` that of the
    -- response.
    unfoldable pub handle_create_timeshift :
        Option (List Pod)
        → Bool
        → String
        → Time
        → Time
        → Option CreateTimeshiftRequest
        → Controller
        → Response × Controller
    unfolding parse_ttl create_code
    handle_create_timeshift listed flush_ok id now shown none c = (failure 400, c)
    handle_create_timeshift listed flush_ok id now shown (some req) c =
        if str_eq req.namespace ""
        then (failure 400, c)
        else (if str_eq req.label_selector "" then (failure 400, c) else elim (f.parse req.time) [
          | none ↦ (failure 400, c)
          | some target ↦ elim (parse_ttl req.ttl) [
            | none ↦ (failure 400, c)
            | some ttl ↦ answer 201 create_code shown (
                create_timeshift agents listed flush_ok id now req.namespace req.label_selector
                  target ttl req.freeze c)
          ]
        ])

    -- The part of handleUpdateTimeshift behind its checks: by a duration or to a time.
    unfoldable pub update_by_request :
        Bool
        → Time
        → Time
        → Time
        → String
        → UpdateTimeshiftRequest
        → Controller
        → Response × Controller
    unfolding error_code
    update_by_request flush_ok now later shown id req c =
        let advanced = elim (f.parse_duration req.duration) as (λ _. Response × Controller) [
          | none ↦ (failure 400, c)
          | some delta ↦
              answer 200 error_code shown
                (advance_timeshift agents flush_ok now later id delta req.freeze c)
        ] in
        let updated = elim (f.parse req.time) as (λ _. Response × Controller) [
          | none ↦ (failure 400, c)
          | some target ↦
              answer 200 error_code shown
                (update_timeshift agents flush_ok later id target req.freeze c)
        ] in
        if str_eq req.duration "" then updated else advanced

    -- handleUpdateTimeshift
    unfoldable pub handle_update_timeshift :
        Bool
        → Time
        → Time
        → Time
        → String
        → Option UpdateTimeshiftRequest
        → Controller
        → Response × Controller
    unfolding update_by_request
    handle_update_timeshift flush_ok now later shown id none c = (failure 400, c)
    handle_update_timeshift flush_ok now later shown id (some req) c =
        if not (str_eq req.time "") && not (str_eq req.duration "")
        then (failure 400, c)
        else (if str_eq req.time "" && str_eq req.duration ""
            then (failure 400, c)
            else update_by_request flush_ok now later shown id req c)

-- handleDeleteTimeshift
unfoldable pub handle_delete_timeshift : Bool → String → Controller → Response × Controller
unfolding error_code
handle_delete_timeshift flush_ok id c =
    let (r, c') = delete_timeshift flush_ok id c in
    elim r [
      | ok _ ↦ (record { code = 204; body = no_body }, c')
      | err e ↦ (failure (error_code e), c')
    ]
